-- ===== src/CircuitBreaker/Calls.antt =====
-- `Execute` as a whole, for a call that no other call interleaves with.
use cascade_proxy.Common.{
  ℕ, ◌≡◌, inl, inr, Bool, true, false, Option, some, List, [], ◌∷◌, if◌then◌else◌, Bool-cases,
}
use cascade_proxy.CircuitBreaker.{Breaker, admit, is_ok, execute}
use cascade_proxy.CircuitBreaker.Events.{Event, begins, ends, step, run}

module _ {W E : Type 0} (now : W → ℕ) (circuit_open : E) (fn : W → Option E × W) where
  -- The critical sections of a call that begins in this world.
  abbrev pub events_of : Bool → W → List Event
  events_of true w = begins (now w) ∷ ends (now (fn w).1) (is_ok (fn w).0) ∷ []
  events_of false w = begins (now w) ∷ []

  -- A call that is let in runs `fn` once, returns what `fn` returns and records whether that is an
  -- error; one that is refused returns the error for an open circuit and leaves the world alone.
  -- Either way the breaker makes the steps that belong to the call, and no other.
  pub execute-run :
      (cb : Breaker) (w : W)
      → let allowed = (admit (now w) cb).0 in
        execute now circuit_open fn cb w ≡ (
          (if allowed then (fn w).0 else some circuit_open),
          run cb (events_of allowed w),
          (if allowed then (fn w).1 else w),
        )
  unfolding execute run step
  execute-run cb w = elim (Bool-cases (admit (now w) cb).0) [
    | inl allowed ↦ rw (allowed, execute)
    | inr refused ↦ rw (refused, execute)
  ]

  -- What holds of a call that is refused and of the outcome of `fn` holds of every call.
  pub execute_rule :
      (P : Option E → W → Type 0) (cb : Breaker) (w : W)
      → P (some circuit_open) w
      → P (fn w).0 (fn w).1
      → P (execute now circuit_open fn cb w).0 (execute now circuit_open fn cb w).2
  unfolding execute
  execute_rule P cb w refused ran = elim (Bool-cases (admit (now w) cb).0) [
    | inl allowed ↦ rw (allowed, execute) ran
    | inr barred ↦ rw (barred, execute) refused
  ]
