-- ===== src/CircuitBreaker/Runs.antt =====
-- Histories of the breaker: how it trips, how long it refuses calls, how it recovers.
use cascade_proxy.Common.{
  ℕ, suc, ◌+◌, ◌≤◌, ◌<◌, ◌≡◌, refl, ap, ◌∙◌, ◌⊎◌, inl, inr, Bool, true, false, List, [], ◌∷◌, map,
  arith, ltb, if◌then◌else◌, length, replicate, All,
}
use cascade_proxy.CircuitBreaker.{
  closed, opened, half_open, Config, Breaker, new, current_state, admit, settle,
}
use cascade_proxy.CircuitBreaker.Events.{Event, begins, reads, ends, step, run}

-- What each `Execute` that begins is told.
unfoldable pub admissions : Breaker → List Event → List Bool
admissions cb [] = []
admissions cb (begins now ∷ es) = (admit now cb).0 ∷ admissions (step cb (begins now)) es
admissions cb (reads now ∷ es) = admissions (step cb (reads now)) es
admissions cb (ends now ok ∷ es) = admissions (step cb (ends now ok)) es

abbrev pub time_of : Event → ℕ
time_of (begins now) = now
time_of (reads now) = now
time_of (ends now _) = now

-- The event falls into the time from `start` to `stop`, which is not included.
abbrev pub IsWithin : ℕ → ℕ → Event → Type 0
IsWithin start stop e = (start ≤ time_of e) × (time_of e < stop)

record IsCooling (start : ℕ) (timeout : ℕ) (cb : Breaker) : Type 0 where
  is_open : cb.state ≡ opened
  same_timeout : cb.cfg.timeout ≡ timeout
  late : start ≤ cb.last_failure_time

step-IsCooling :
    (start timeout : ℕ) (cb : Breaker) (e : Event)
    → IsWithin start (start + timeout) e
    → IsCooling start timeout cb
    → IsCooling start timeout (step cb e)
unfolding step admit settle current_state
step-IsCooling start timeout cb (begins now) h c = ground arith
step-IsCooling start timeout cb (reads now) h c = ground arith
step-IsCooling start timeout cb (ends now ok) h c = ground arith

admit_refused :
    (start timeout : ℕ) (cb : Breaker) (now : ℕ)
    → now < start + timeout
    → IsCooling start timeout cb
    → (admit now cb).0 ≡ false
unfolding admit current_state
admit_refused start timeout cb now h c = ground arith

cooling_refuses :
    (start timeout : ℕ) (cb : Breaker) (es : List Event)
    → All (IsWithin start (start + timeout)) es
    → IsCooling start timeout cb
    → All (λ b. b ≡ false) (admissions cb es) × ((run cb es).state ≡ opened)
unfolding admissions run
cooling_refuses start timeout cb [] h c = (tt, c.is_open)
cooling_refuses start timeout cb (begins now ∷ es) (h, hs) c =
    let next =
      cooling_refuses start timeout (step cb (begins now)) es hs
        (step-IsCooling start timeout cb (begins now) h c) in
    ((admit_refused start timeout cb now h.1 c, next.0), next.1)
cooling_refuses start timeout cb (reads now ∷ es) (h, hs) c =
    cooling_refuses start timeout _ es hs (step-IsCooling start timeout cb (reads now) h c)
cooling_refuses start timeout cb (ends now ok ∷ es) (h, hs) c =
    cooling_refuses start timeout _ es hs (step-IsCooling start timeout cb (ends now ok) h c)

-- From an open breaker, whatever happens from the last failure until just before the timeout has
-- passed since, late outcomes of earlier calls included, each call that begins is refused, and the
-- breaker is open at the end.
pub open_refuses :
    (cb : Breaker) (es : List Event)
    → cb.state ≡ opened
    → All (IsWithin cb.last_failure_time (cb.last_failure_time + cb.cfg.timeout)) es
    → All (λ b. b ≡ false) (admissions cb es) × ((run cb es).state ≡ opened)
open_refuses cb es h w =
    cooling_refuses cb.last_failure_time cb.cfg.timeout cb es w
      (record { is_open = h; same_timeout = refl; late = omega arith })

abbrev pub failures : List ℕ → List Event
failures = map (λ now. ends now false)

abbrev pub successes : List ℕ → List Event
successes = map (λ now. ends now true)

failures_keep_open :
    (cb : Breaker) (times : List ℕ) → cb.state ≡ opened → (run cb (failures times)).state ≡ opened
unfolding run
failures_keep_open cb [] h = h
failures_keep_open cb (now ∷ times) h =
    failures_keep_open (step cb (ends now false)) times (unfold step settle in ground arith)

failure_closed :
    (cb : Breaker) (now : ℕ)
    → cb.state ≡ closed
    → let cb' = step cb (ends now false) in
      (cb'.cfg ≡ cb.cfg)
      × (((cb'.state ≡ closed)
            × (cb'.failure_count ≡ cb.failure_count + 1)
            × (cb.failure_count + 1 < cb.cfg.failure_threshold))
          ⊎ ((cb'.state ≡ opened) × (cb.cfg.failure_threshold ≤ cb.failure_count + 1)))
unfolding step settle
failure_closed cb now h = ground arith

failures_from :
    (cb : Breaker) (times : List ℕ)
    → cb.state ≡ closed
    → cb.failure_count < cb.cfg.failure_threshold
    → (run cb (failures times)).state
      ≡ (if ltb (cb.failure_count + length times) cb.cfg.failure_threshold then closed else opened)
unfolding run
failures_from cb [] h below = ground arith
failures_from cb (now ∷ times) h below =
    let (same, cases) = failure_closed cb now h in
    elim cases [
      | inl (still, count, low) ↦
          let ih = failures_from (step cb (ends now false)) times still (ground arith) in
          ground arith
      | inr (tripped, high) ↦
          let kept = failures_keep_open (step cb (ends now false)) times tripped in ground arith
    ]

-- A new breaker trips at the failure threshold, which is positive: after that many outcomes, all of
-- them failures, or more, it is open, and after fewer it is closed.
pub failures_trip :
    (cfg : Config) (times : List ℕ)
    → 0 < cfg.failure_threshold
    → (run (new cfg) (failures times)).state
      ≡ (if ltb (length times) cfg.failure_threshold then closed else opened)
unfolding new
failures_trip cfg times h = let tripped = failures_from (new cfg) times refl h in ground arith

success_half_open :
    (cb : Breaker) (now : ℕ)
    → cb.state ≡ half_open
    → let cb' = step cb (ends now true) in
      (cb'.cfg ≡ cb.cfg)
      × (((cb'.state ≡ half_open)
            × (cb'.success_count ≡ cb.success_count + 1)
            × (cb.success_count + 1 < cb.cfg.success_threshold))
          ⊎ ((cb'.state ≡ closed) × (cb.cfg.success_threshold ≤ cb.success_count + 1)))
unfolding step settle
success_half_open cb now h = ground arith

successes_keep_closed :
    (cb : Breaker) (times : List ℕ) → cb.state ≡ closed → (run cb (successes times)).state ≡ closed
unfolding run
successes_keep_closed cb [] h = h
successes_keep_closed cb (now ∷ times) h =
    successes_keep_closed (step cb (ends now true)) times (unfold step settle in ground arith)

-- A half-open breaker that has counted fewer successes than the success threshold recovers at it:
-- after further outcomes, all of them successes, it is closed exactly if they and the successes
-- counted before reach the threshold, and half-open otherwise. It does not matter when the calls
-- that succeed were admitted.
pub successes_recover :
    (cb : Breaker) (times : List ℕ)
    → cb.state ≡ half_open
    → cb.success_count < cb.cfg.success_threshold
    → (run cb (successes times)).state ≡ (
        if ltb (cb.success_count + length times) cb.cfg.success_threshold
        then half_open
        else closed)
unfolding run
successes_recover cb [] h below = ground arith
successes_recover cb (now ∷ times) h below =
    let (same, cases) = success_half_open cb now h in
    elim cases [
      | inl (still, count, low) ↦
          let ih = successes_recover (step cb (ends now true)) times still (ground arith) in
          ground arith
      | inr (done, high) ↦
          let kept = successes_keep_closed (step cb (ends now true)) times done in ground arith
    ]

step-begins_half_open :
    (cb : Breaker) (now : ℕ)
    → cb.state ≡ half_open
    → ((admit now cb).0 ≡ true) × ((admit now cb).1 ≡ cb)
unfolding admit current_state
step-begins_half_open cb now h = ground arith

half_open_admits :
    (cb : Breaker) (times : List ℕ)
    → cb.state ≡ half_open
    → admissions cb (map begins times) ≡ replicate (length times) true
unfolding admissions step
half_open_admits cb [] h = refl
half_open_admits cb (now ∷ times) h =
    let (allowed, same) = step-begins_half_open cb now h in
    rw allowed
      (ap (◌∷◌ true) (ap (λ c. admissions c (map begins times)) same ∙ half_open_admits cb times h))

opened_admits :
    (cb : Breaker) (now : ℕ)
    → cb.state ≡ opened
    → cb.last_failure_time + cb.cfg.timeout ≤ now
    → ((admit now cb).0 ≡ true) × ((admit now cb).1.state ≡ half_open)
unfolding admit current_state
opened_admits cb now h late = ground arith

-- Of calls that begin one after another, with no outcome recorded in between, an open breaker lets
-- in every one, if the first begins after its timeout has passed: any number of calls probe the
-- upstream at the same time.
pub probes_unlimited :
    (cb : Breaker) (now : ℕ) (times : List ℕ)
    → cb.state ≡ opened
    → cb.last_failure_time + cb.cfg.timeout ≤ now
    → admissions cb (map begins (now ∷ times)) ≡ replicate (suc (length times)) true
unfolding admissions step
probes_unlimited cb now times h late =
    let woken = opened_admits cb now h late in
    rw woken.0 (ap (◌∷◌ true) (half_open_admits (admit now cb).1 times woken.1))
