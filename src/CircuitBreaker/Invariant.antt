-- ===== src/CircuitBreaker/Invariant.antt =====
-- What holds of the breaker after any interleaving, and the diagram that its state follows.
use cascade_proxy.Common.{◌<◌, ◌≡◌, List, [], ◌∷◌, arith}
use cascade_proxy.CircuitBreaker.{
  State, closed, opened, half_open, Config, Breaker, new, current_state, admit, settle,
}
use cascade_proxy.CircuitBreaker.Events.{Event, begins, reads, ends, step, run}

-- The counters stay below the thresholds of the state that they count in, and an open breaker has
-- no successes.
pub record IsValid (cb : Breaker) : Type 0 where
  pub failures_below : cb.state ≡ closed → cb.failure_count < cb.cfg.failure_threshold
  pub probes_below : cb.state ≡ half_open → cb.success_count < cb.cfg.success_threshold
  pub open_empty : cb.state ≡ opened → cb.success_count ≡ 0

-- A configuration under which every state can be left in the way that the code means.
pub record IsPositive (cfg : Config) : Type 0 where
  pub failures : 0 < cfg.failure_threshold
  pub successes : 0 < cfg.success_threshold

pub new-IsValid : (cfg : Config) → IsPositive cfg → IsValid (new cfg)
unfolding new
new-IsValid cfg p = ground arith

pub cfg-step : (cb : Breaker) (e : Event) → (step cb e).cfg ≡ cb.cfg
unfolding step admit settle current_state
cfg-step cb (begins now) = ground arith
cfg-step cb (reads now) = ground arith
cfg-step cb (ends now ok) = ground arith

pub step-IsValid : (cb : Breaker) (e : Event) → IsPositive cb.cfg → IsValid cb → IsValid (step cb e)
unfolding step admit settle current_state
step-IsValid cb (begins now) p v = ground arith
step-IsValid cb (reads now) p v = ground arith
step-IsValid cb (ends now ok) p v = ground arith

run-IsValid_from :
    (cb : Breaker) (es : List Event) → IsPositive cb.cfg → IsValid cb → IsValid (run cb es)
unfolding run
run-IsValid_from cb [] p v = v
run-IsValid_from cb (e ∷ es) p v =
    run-IsValid_from (step cb e) es (let same = cfg-step cb e in ground arith)
      (step-IsValid cb e p v)

-- After any interleaving of calls on a new breaker whose thresholds are positive, a closed breaker
-- has counted fewer failures than its failure threshold, a half-open one fewer successes than its
-- success threshold, and an open one no successes.
pub run-IsValid : (cfg : Config) (es : List Event) → IsPositive cfg → IsValid (run (new cfg) es)
run-IsValid cfg es p = run-IsValid_from (new cfg) es (unfold new in p) (new-IsValid cfg p)

infix 40 ◌⟶◌
pub data ◌⟶◌ : State → State → Type 0 where
  stay : {s : State} → s ⟶ s
  trip : closed ⟶ opened
  probe : opened ⟶ half_open
  reopen : half_open ⟶ opened
  recover : half_open ⟶ closed

ruleset edges = (stay, trip, probe, reopen, recover)

-- Each step keeps the state or follows one of the four edges closed to open, open to half-open,
-- half-open to open and half-open to closed; so an open breaker is never closed without probing.
pub step-⟶ : (cb : Breaker) (e : Event) → cb.state ⟶ (step cb e).state
unfolding step admit settle current_state
step-⟶ cb e = grind (arith, edges)
