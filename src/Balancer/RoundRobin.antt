-- ===== src/Balancer/RoundRobin.antt =====
-- The order in which `Next` serves the targets.
use Prim.Native.Nat.add
use Prim.Native.Nat.mul
use mathlib.Core.Path.{ap₂}
use native.Mathlib.Nat.{zero-add, mod-eq_of_lt, mul-add-mod_self_right}
use cascade_proxy.Common.{
  ℕ, zero, suc, ◌+◌, ◌-◌, ◌*◌, ◌%◌, ◌^◌, ◌≤◌, ◌<◌, ◌≡◌, refl, ap, ◌∙◌, List, [], ◌∷◌, ◌++◌, map,
  some, Text, Result, ok, arith, length, get_elem?, length-append, get_elem?-middle, append-nil,
  append_assoc, sym, subst, repeat,
}
use cascade_proxy.Balancer.{Balancer, Choice, target, index, u64, next, Config, new, len}
use cascade_proxy.Balancer.Targets.{new-counter}

turn : (n q i : ℕ) → i < n → q * n + n ≤ 2 ^ 64 → u64 (q * n + i) % n ≡ i
turn n q i h small =
    let low : u64 (q * n + i) ≡ q * n + i = omega arith in
    rw (low, mul-add-mod_self_right) (mod-eq_of_lt h)

module _ {Url : Type 0} where
  -- `n` calls, one after the other.
  unfoldable pub next_times : ℕ → Balancer Url → List (Choice Url) × Balancer Url
  next_times zero b = ([], b)
  next_times (suc n) b = let (c, b') = next b in let (cs, b'') = next_times n b' in (c ∷ cs, b'')

  -- A call is served by the target at the counter modulo the number of targets, and counts one up.
  next-eq :
      (ts : List Url) (b : Balancer Url)
      → b.targets ≡ ts
      → 0 < length ts
      → b.counter < 2 ^ 64
      → next b
        ≡ (index (get_elem? ts (b.counter % length ts)), record b { counter = u64 (b.counter + 1) })
  unfolding next
  next-eq [] b e h small = absurd (omega arith)
  next-eq (u ∷ us) b e h small =
      let back : u64 (u64 (b.counter + 1) + 2 ^ 64 - 1) ≡ b.counter = omega arith in
      rw (e, next) (rw back)

  -- `q` whole rounds and `i` calls have been made.
  abbrev At : List Url → ℕ → ℕ → Balancer Url → Type 0
  At ts q i b = (b.targets ≡ ts) × (b.counter ≡ u64 (q * length ts + i))

  next-At :
      (ts us : List Url) (v : Url) (vs : List Url) (q : ℕ) (b : Balancer Url)
      → us ++ (v ∷ vs) ≡ ts
      → q * length ts + length ts ≤ 2 ^ 64
      → At ts q (length us) b
      → ((next b).0 ≡ target v) × At ts q (suc (length us)) (next b).1
  next-At ts us v vs q b split small (same, count) =
      let longer : length ts ≡ length us + suc (length vs) =
        ap length (sym split) ∙ length-append us (v ∷ vs) in
      let here : b.counter % length ts ≡ length us =
        rw count (turn (length ts) q (length us) (omega arith) small) in
      let found : get_elem? ts (length us) ≡ some v =
        ap (λ l. get_elem? l (length us)) (sym split) ∙ get_elem?-middle us v vs in
      rw (next-eq ts b same (omega arith) (omega arith), here, found) (refl, (same, omega arith))

  -- The calls that are left of a round serve the targets that are left, in their order.
  rest_of_round :
      (ts us vs : List Url) (q : ℕ) (b : Balancer Url)
      → us ++ vs ≡ ts
      → q * length ts + length ts ≤ 2 ^ 64
      → At ts q (length us) b
      → ((next_times (length vs) b).0 ≡ map target vs)
        × At ts q (length ts) (next_times (length vs) b).1
  unfolding next_times
  rest_of_round ts us [] q b split small at =
      let all_ : us ≡ ts = sym (append-nil us) ∙ split in
      (refl, subst (λ l. At ts q (length l) b) all_ at)
  rest_of_round ts us (v ∷ vs) q b split small at =
      let (first, at') = next-At ts us v vs q b split small at in
      let one : length (us ++ (v ∷ [])) ≡ suc (length us) =
        length-append us (v ∷ []) ∙ omega arith in
      let (others, end) =
        rest_of_round ts (us ++ (v ∷ [])) vs q (next b).1 (append_assoc us (v ∷ []) vs ∙ split)
          small (rw one at') in
      (ap₂ (◌∷◌) first others, end)

  next_times-append :
      (m n : ℕ) (b : Balancer Url)
      → ((next_times (m + n) b).0 ≡ (next_times m b).0 ++ (next_times n (next_times m b).1).0)
        × ((next_times (m + n) b).1 ≡ (next_times n (next_times m b).1).1)
  unfolding next_times
  next_times-append zero n b = rw add.zero (refl, refl)
  next_times-append (suc m) n b =
      let (firsts, end) = next_times-append m n (next b).1 in
      rw add.suc (ap (◌∷◌ (next b).0) firsts, end)

  rounds_from :
      (m q : ℕ) (ts : List Url) (b : Balancer Url)
      → (q + m) * length ts ≤ 2 ^ 64
      → At ts q 0 b
      → (next_times (m * length ts) b).0 ≡ repeat m (map target ts)
  rounds_from zero q ts b small at = rw mul.zero (unfold next_times in refl)
  rounds_from (suc m) q ts b small at =
      let (round, (same, count)) = rest_of_round ts [] ts q b refl (grind arith) at in
      let (both, _) = next_times-append (length ts) (m * length ts) b in
      let again =
        rounds_from m (suc q) ts (next_times (length ts) b).1 (grind arith)
          (same, count ∙ ap u64 (grind arith)) in
      rw (mul.suc, both, round, again)

  -- The calls on a new balancer go round the targets in the order of the configuration: m rounds of
  -- as many calls as there are targets return the list of the targets m times over. The total of
  -- calls is at most 2 ^ 64, so that the counter has not wrapped.
  pub rounds :
      {E : Type 0} (parse : Text → Result E Url) (cfg : Config) (b : Balancer Url) (m : ℕ)
      → new parse cfg ≡ ok b
      → m * len b ≤ 2 ^ 64
      → (next_times (m * len b) b).0 ≡ repeat m (map target b.targets)
  unfolding len
  rounds parse cfg b m made small =
      rounds_from m 0 b.targets b (let e = zero-add m in grind arith)
        (refl, new-counter parse cfg b made ∙ omega arith)
