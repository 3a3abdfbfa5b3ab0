-- ===== src/CircuitBreaker.antt =====
-- internal/circuitbreaker/circuitbreaker.go. Times are nanoseconds, and `time.Now()` is an argument
-- of each step. The mutex makes `admit` and `settle` atomic; `fn` runs between them with the mutex
-- released, so that the steps of other calls may come between (CircuitBreaker/Events.antt).
pub mod Events
pub mod Invariant
pub mod Runs
pub mod Calls
pub mod Reference
mod Examples
use cascade_proxy.Common.{ℕ, ◌+◌, Bool, true, false, Option, none, some, leb, if◌then◌else◌}

pub data State : Type 0 where
  closed opened half_open : State

-- The `int` and `time.Duration` fields are not negative.
pub record Config : Type 0 where
  pub failure_threshold : ℕ
  pub success_threshold : ℕ
  pub timeout : ℕ

abbrev pub default_config : Config
default_config = record { failure_threshold = 5; success_threshold = 2; timeout = 10_000_000_000 }

pub record Breaker : Type 0 where
  pub cfg : Config
  pub state : State
  pub failure_count : ℕ
  pub success_count : ℕ
  pub last_failure_time : ℕ

unfoldable pub new : Config → Breaker
new cfg = record {
  cfg = cfg;
  state = closed;
  failure_count = 0;
  success_count = 0;
  last_failure_time = 0;
}

abbrev pub is_opened : State → Bool
is_opened opened = true
is_opened _ = false

-- time.Since(cb.lastFailureTime) >= cb.cfg.Timeout
abbrev pub timeout_elapsed : ℕ → Breaker → Bool
timeout_elapsed now cb = leb (cb.last_failure_time + cb.cfg.timeout) now

current_state_from : State → ℕ → Breaker → Breaker
current_state_from opened now cb =
    if timeout_elapsed now cb then record cb { state = half_open; success_count = 0 } else cb
current_state_from _ now cb = cb

-- The new state is the result too: it is the field `state` of the new breaker.
unfoldable pub current_state : ℕ → Breaker → Breaker
unfolding current_state_from
current_state now cb = current_state_from cb.state now cb

-- The method `State`, which may move the breaker to half-open.
unfoldable pub read_state : ℕ → Breaker → State × Breaker
unfolding current_state
read_state now cb = let cb' = current_state now cb in (cb'.state, cb')

abbrev pub is_half_open : State → Bool
is_half_open half_open = true
is_half_open _ = false

unfoldable pub on_failure : ℕ → Breaker → Breaker
on_failure now cb =
    let counted = record cb { failure_count = cb.failure_count + 1; last_failure_time = now } in
    if is_half_open cb.state
    then record counted { state = opened; success_count = 0 }
    else if leb cb.cfg.failure_threshold counted.failure_count
    then record counted { state = opened; success_count = 0 }
    else counted

unfoldable pub on_success : Breaker → Breaker
on_success cb =
    let counted = record cb { success_count = cb.success_count + 1 } in
    if is_half_open cb.state
    then if leb cb.cfg.success_threshold counted.success_count
      then record counted { state = closed; failure_count = 0 }
      else counted
    else record cb { failure_count = 0 }

-- The first critical section of `Execute`: whether `fn` may run.
unfoldable pub admit : ℕ → Breaker → Bool × Breaker
unfolding current_state
admit now cb =
    let cb' = current_state now cb in if is_opened cb'.state then (false, cb') else (true, cb')

abbrev pub is_ok {ℓ} : {E : Type ℓ} → Option E → Bool
is_ok none = true
is_ok (some _) = false

-- The second critical section of `Execute`: whether `fn` succeeded.
unfoldable pub settle : ℕ → Bool → Breaker → Breaker
unfolding on_success on_failure
settle now true cb = on_success cb
settle now false cb = on_failure now cb

-- `Execute` for a call that no other call interleaves with. `W` is the rest of the world, which
-- `fn` acts on, and `now` reads its clock; `E` is the type `error` and `circuit_open` its value
-- `ErrCircuitOpen`.
module _ {W E : Type 0} (now : W → ℕ) (circuit_open : E) where
  -- `fn()`, and its outcome recorded
  execute_admitted : (W → Option E × W) → Breaker → W → Option E × Breaker × W
  unfolding settle
  execute_admitted fn cb w = let (err, w') = fn w in (err, settle (now w') (is_ok err) cb, w')

  unfoldable pub execute : (W → Option E × W) → Breaker → W → Option E × Breaker × W
  unfolding admit execute_admitted
  execute fn cb w =
      let (allowed, cb') = admit (now w) cb in
      if allowed then execute_admitted fn cb' w else (some circuit_open, cb', w)
