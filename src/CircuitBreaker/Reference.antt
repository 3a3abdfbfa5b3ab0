-- ===== src/CircuitBreaker/Reference.antt =====
-- What the breaker promises, without the fields that do not matter: a count of failures in a row, a
-- time before which calls are refused, or a count of successful probes.
use cascade_proxy.Common.{
  ℕ, ◌+◌, ◌≡◌, refl, ◌∙◌, ap, Bool, true, false, List, [], ◌∷◌, arith, leb, if◌then◌else◌,
}
use cascade_proxy.CircuitBreaker.{
  State, closed, opened, half_open, Config, Breaker, current_state, admit, settle,
}
use cascade_proxy.CircuitBreaker.Events.{Event, begins, reads, ends, step, run}
use cascade_proxy.CircuitBreaker.Invariant.{cfg-step}

pub data Phase : Type 0 where
  counting cooling probing : ℕ → Phase

module _ (cfg : Config) where
  -- Time passes: a cooled breaker starts to probe.
  abbrev pub wake : ℕ → Phase → Phase
  wake now (counting n) = counting n
  wake now (cooling t) = if leb t now then probing 0 else cooling t
  wake now (probing k) = probing k

  abbrev pub succeed : Phase → Phase
  succeed (counting n) = counting 0
  succeed (cooling t) = cooling t
  succeed (probing k) = if leb cfg.success_threshold (k + 1) then counting 0 else probing (k + 1)

  abbrev pub fail : ℕ → Phase → Phase
  fail now (counting n) =
      if leb cfg.failure_threshold (n + 1) then cooling (now + cfg.timeout) else counting (n + 1)
  fail now (cooling t) = cooling (now + cfg.timeout)
  fail now (probing k) = cooling (now + cfg.timeout)

  abbrev pub advance : Phase → Event → Phase
  advance p (begins now) = wake now p
  advance p (reads now) = wake now p
  advance p (ends now true) = succeed p
  advance p (ends now false) = fail now p

  abbrev pub advance_all : Phase → List Event → Phase
  advance_all p [] = p
  advance_all p (e ∷ es) = advance_all (advance p e) es

-- A call may run unless the phase is cooling.
abbrev pub lets_in : Phase → Bool
lets_in (counting n) = true
lets_in (cooling t) = false
lets_in (probing k) = true

phase_from : State → Breaker → Phase
phase_from closed cb = counting cb.failure_count
phase_from opened cb = cooling (cb.last_failure_time + cb.cfg.timeout)
phase_from half_open cb = probing cb.success_count

pub phase : Breaker → Phase
unfolding phase_from
phase cb = phase_from cb.state cb

phase-step : (cb : Breaker) (e : Event) → phase (step cb e) ≡ advance cb.cfg (phase cb) e
unfolding phase step admit settle current_state
phase-step cb (begins now) = ground arith
phase-step cb (reads now) = ground arith
phase-step cb (ends now true) = ground arith
phase-step cb (ends now false) = ground arith

-- The breaker implements the reference: after any interleaving its phase is the one that the
-- reference reaches from the same phase by the same events.
pub phase-run :
    (cb : Breaker) (es : List Event) → phase (run cb es) ≡ advance_all cb.cfg (phase cb) es
unfolding run
phase-run cb [] = refl
phase-run cb (e ∷ es) =
    phase-run (step cb e) es
    ∙ ap (λ c. advance_all c (phase (step cb e)) es) (cfg-step cb e)
    ∙ ap (λ p. advance_all cb.cfg p es) (phase-step cb e)

-- The breaker lets a call in exactly when the reference does, once time has passed.
pub admit-lets_in :
    (cb : Breaker) (now : ℕ) → (admit now cb).0 ≡ lets_in (wake cb.cfg now (phase cb))
unfolding phase admit current_state
admit-lets_in cb now = ground arith
