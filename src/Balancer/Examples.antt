-- ===== src/Balancer/Examples.antt =====
-- Balancers of concrete targets.
use cascade_proxy.Common.{ℕ, ◌≡◌, refl, [], ◌∷◌, Text, Result, ok}
use cascade_proxy.Balancer.{Config, Balancer, target, new, next}
use cascade_proxy.Balancer.RoundRobin.{next_times}

-- A parser that accepts every text as a URL of its own.
abbrev parse : Text → Result ℕ Text
parse t = ok t

abbrev three : Config
three = record { targets = (b'a' ∷ []) ∷ (b'b' ∷ []) ∷ (b'c' ∷ []) ∷ [] }

abbrev of_three : Balancer Text
of_three = record { targets = three.targets; counter = 0 }

parsed_three : new parse three ≡ ok of_three
unfolding new
parsed_three = refl

-- The fourth call returns the first target again.
four_calls :
    (next_times 4 of_three).0
    ≡ target (b'a' ∷ []) ∷ target (b'b' ∷ []) ∷ target (b'c' ∷ []) ∷ target (b'a' ∷ []) ∷ []
unfolding next_times next
four_calls = refl
