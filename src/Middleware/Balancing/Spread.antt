-- ===== src/Middleware/Balancing/Spread.antt =====
-- Where the requests go.
use cascade_proxy.Common.{
  ℕ, zero, suc, ◌*◌, ◌^◌, ◌≤◌, ◌≡◌, refl, sym, ap, ◌∙◌, Option, List, [], ◌∷◌, ◌++◌, map,
  append_assoc, append-nil, length, Text, Result, ok, repeat,
}
use mathlib.Core.List.{map-append}
use cascade_proxy.Http.{Request, WriteOp}
use cascade_proxy.Balancer
use cascade_proxy.Balancer.{Balancer, Config, Choice, target, failed, panicked, len}
use cascade_proxy.Balancer.RoundRobin.{next_times, rounds}
use cascade_proxy.Middleware.Failover.{Base}
use cascade_proxy.Middleware.Balancing.{direct, route, handle}

-- The requests with the targets of these choices.
abbrev directed_by : List (Choice Base) → List Request → List Request
directed_by (target base ∷ cs) (r ∷ rs) = direct base r ∷ directed_by cs rs
directed_by (failed ∷ cs) (r ∷ rs) = directed_by cs rs
directed_by (panicked ∷ cs) (r ∷ rs) = directed_by cs rs
directed_by cs rs = []

-- Each request with the target at its place.
abbrev pub directed : List Base → List Request → List Request
directed (base ∷ bases) (r ∷ rs) = direct base r ∷ directed bases rs
directed bases rs = []

directed_by-map :
    (bases : List Base) (rs : List Request) → directed_by (map target bases) rs ≡ directed bases rs
directed_by-map [] rs = refl
directed_by-map (base ∷ bases) [] = refl
directed_by-map (base ∷ bases) (r ∷ rs) = ap (◌∷◌ (direct base r)) (directed_by-map bases rs)

repeat-map :
    {A B : Type 0} (f : A → B) (m : ℕ) (xs : List A) → repeat m (map f xs) ≡ map f (repeat m xs)
repeat-map f zero xs = refl
repeat-map f (suc m) xs =
    ap (◌++◌ (map f xs)) (repeat-map f m xs) ∙ sym (map-append f xs (repeat m xs))

module _ {W : Type 0} (proxy : Request → W → Option (List WriteOp) × W)
    (sent : W → List Request) where
  -- The state after these requests.
  unfoldable pub handle_all : List Request → Balancer Base × W → Balancer Base × W
  handle_all [] state = state
  handle_all (r ∷ rs) state = handle_all rs (handle proxy r state).1

  route-sent :
      ((r : Request) (w : W) → sent (proxy r w).1 ≡ sent w ++ (r ∷ []))
      → (c : Choice Base) (cs : List (Choice Base)) (r : Request) (rs : List Request) (w : W)
      → sent (route proxy c r w).1 ++ directed_by cs rs ≡ sent w ++ directed_by (c ∷ cs) (r ∷ rs)
  unfolding route
  route-sent logs (target base) cs r rs w =
      ap (λ l. l ++ directed_by cs rs) (logs (direct base r) w)
      ∙ append_assoc (sent w) (direct base r ∷ []) (directed_by cs rs)
  route-sent logs failed cs r rs w = refl
  route-sent logs panicked cs r rs w = refl

  handle_all-sent :
      ((r : Request) (w : W) → sent (proxy r w).1 ≡ sent w ++ (r ∷ []))
      → (rs : List Request) (b : Balancer Base) (w : W)
      → sent (handle_all rs (b, w)).1 ≡ sent w ++ directed_by (next_times (length rs) b).0 rs
  unfolding handle_all handle route next_times
  handle_all-sent logs [] b w = sym (append-nil (sent w))
  handle_all-sent logs (r ∷ rs) b w =
      let (c, b') = Balancer.next b in
      handle_all-sent logs rs b' (route proxy c r w).1
      ∙ route-sent logs c (next_times (length rs) b').0 r rs w

  -- Of as many requests as m rounds of a new balancer's targets, at most 2 ^ 64 in all, the
  -- upstreams get each exactly once, in their order, the first directed to the first target, and so
  -- on round the targets m times; `sent` lists the requests that the reverse proxy was given.
  pub handle_all-directed :
      {E : Type 0} (parse : Text → Result E Base) (cfg : Config) (b : Balancer Base) (m : ℕ)
      → ((r : Request) (w : W) → sent (proxy r w).1 ≡ sent w ++ (r ∷ []))
      → (rs : List Request) (w : W) → Balancer.new parse cfg ≡ ok b
      → m * len b ≤ 2 ^ 64
      → length rs ≡ m * len b
      → sent (handle_all rs (b, w)).1 ≡ sent w ++ directed (repeat m b.targets) rs
  handle_all-directed parse cfg b m logs rs w made small many =
      handle_all-sent logs rs b w
      ∙ ap (λ cs. sent w ++ directed_by cs rs)
          (ap (λ n. (next_times n b).0) many
            ∙ rounds parse cfg b m made small
            ∙ repeat-map target m b.targets)
      ∙ ap (◌++◌ (sent w)) (directed_by-map (repeat m b.targets) rs)
