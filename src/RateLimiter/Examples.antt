-- ===== src/RateLimiter/Examples.antt =====
-- Limiters in concrete histories.
use cascade_proxy.Common.{
  ℕ, ◌+◌, ◌*◌, ◌-◌, ◌≤◌, ◌≡◌, refl, true, List, [], ◌∷◌, arith, Text, text_eq, lookup, insert,
}
use cascade_proxy.RateLimiter.{Config, unit, new, allow}
use cascade_proxy.RateLimiter.Keys.{grants, grants_bound}
use cascade_proxy.RateLimiter.Service.{allow_all, waiting_served}

abbrev cfg : Config
cfg = record { requests_per_second = 1; burst = 2 }

abbrev alice : Text
alice = b'a' ∷ []

abbrev bob : Text
bob = b'b' ∷ []

-- Two requests of Alice at once and a third too soon, one of Bob, and one of Alice a second later.
abbrev history : List (Text × ℕ)
history = (alice, 5) ∷ (alice, 5) ∷ (alice, 6) ∷ (bob, 6) ∷ (alice, 1_000_000_007) ∷ []

grants-history : grants alice (new cfg) history ≡ 3
unfolding grants new allow text_eq lookup insert
grants-history = refl

grants_bound_example :
    unit * grants alice (new cfg) history ≤ unit * cfg.burst + (1_000_000_007 - 5) * 1
grants_bound_example =
    grants_bound cfg alice 5 1_000_000_007 history
      (omega arith, (omega arith, (omega arith, (omega arith, (omega arith, omega arith)))))

-- Bob empties his bucket meanwhile.
abbrev of_bob : List (Text × ℕ)
of_bob = (bob, 6) ∷ (bob, 6) ∷ (bob, 1_000_000_005) ∷ []

waiting_served_example :
    (allow 1_000_000_005 1_000_000_005 alice (allow_all of_bob (allow 5 5 alice (new cfg)).1)).0
    ≡ true
waiting_served_example =
    waiting_served alice 5 1_000_000_005 of_bob (new cfg) (unfold new in omega arith)
      (unfold new in omega arith) (unfold text_eq in (refl, (refl, (refl, tt))))
