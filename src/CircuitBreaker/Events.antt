-- ===== src/CircuitBreaker/Events.antt =====
-- The breaker under concurrent calls: the critical sections of all goroutines in the order in which
-- they take the mutex. An outcome may belong to a call that was admitted long before.
use cascade_proxy.Common.{ℕ, Bool, List, [], ◌∷◌}
use cascade_proxy.CircuitBreaker.{Breaker, admit, settle, current_state}

pub data Event : Type 0 where
  -- `Execute` begins; `State` is called
  begins reads : ℕ → Event
  -- a call of `fn` returned at this time, with success or not
  ends : ℕ → Bool → Event

unfoldable pub step : Breaker → Event → Breaker
step cb (begins now) = (admit now cb).1
step cb (reads now) = current_state now cb
step cb (ends now ok) = settle now ok cb

unfoldable pub run : Breaker → List Event → Breaker
run cb [] = cb
run cb (e ∷ es) = run (step cb e) es
