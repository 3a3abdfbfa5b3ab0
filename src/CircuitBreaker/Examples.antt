-- ===== src/CircuitBreaker/Examples.antt =====
-- Runs of the breaker on concrete inputs.
use cascade_proxy.Common.{
  ℕ, ◌+◌, ◌≡◌, refl, Bool, true, false, Option, some, List, [], ◌∷◌, arith, All,
}
use cascade_proxy.CircuitBreaker.{opened, half_open, Config, Breaker, new, admit, settle, execute}
use cascade_proxy.CircuitBreaker.Events.{Event, begins, reads, ends, step, run}
use cascade_proxy.CircuitBreaker.Reference.{
  phase, phase-run, advance_all, admit-lets_in, lets_in, wake,
}
use cascade_proxy.CircuitBreaker.Invariant.{IsValid, run-IsValid}
use cascade_proxy.CircuitBreaker.Runs.{admissions, open_refuses}

-- Trips at the second failure, cools for 100 and needs two successes.
abbrev small : Config
small = record { failure_threshold = 2; success_threshold = 2; timeout = 100 }

abbrev tripped : Breaker
tripped = record {
  cfg = small;
  state = opened;
  failure_count = 2;
  success_count = 0;
  last_failure_time = 10;
}

abbrev probed : Breaker
probed = record tripped { state = half_open; success_count = 1 }

abbrev history : List Event
history =
    begins 1
    ∷ begins 2
    ∷ ends 5 false
    ∷ ends 10 false
    ∷ begins 50
    ∷ reads 110
    ∷ begins 111
    ∷ ends 115 true
    ∷ []

history_probes : (run (new small) history).state ≡ half_open
unfolding run step admit settle new
history_probes = refl

-- A late failure, of a call that was admitted before the trip, makes the breaker cool anew.
late_failure : (run tripped (ends 90 false ∷ [])).last_failure_time ≡ 90
unfolding run step settle
late_failure = refl

phase-run_example : phase (run (new small) history) ≡ advance_all small (phase (new small)) history
unfolding new
phase-run_example = phase-run (new small) history

admit-lets_in_example : (admit 111 tripped).0 ≡ lets_in (wake small 111 (phase tripped))
admit-lets_in_example = admit-lets_in tripped 111

open_refuses_example :
    All (λ b. b ≡ false) (admissions tripped (begins 11 ∷ ends 12 true ∷ begins 109 ∷ []))
    × ((run tripped (begins 11 ∷ ends 12 true ∷ begins 109 ∷ [])).state ≡ opened)
open_refuses_example =
    open_refuses tripped (begins 11 ∷ ends 12 true ∷ begins 109 ∷ []) refl
      ((omega arith, omega arith), ((omega arith, omega arith), ((omega arith, omega arith), tt)))

run-IsValid_example : IsValid (run (new small) history)
run-IsValid_example =
    run-IsValid small history (record { failures = omega arith; successes = omega arith })

-- A call that takes 7 and fails with the error `true`; the world is the time.
abbrev failing : ℕ → Option Bool × ℕ
failing w = (some true, w + 7)

execute_fails : (execute (λ w. w) false failing (new small) 3).1.failure_count ≡ 1
unfolding execute admit settle new
execute_fails = refl
