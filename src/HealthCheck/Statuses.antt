-- ===== src/HealthCheck/Statuses.antt =====
-- The map of the statuses.
use cascade_proxy.Common.{
  ◌≡◌, refl, sym, ◌∙◌, true, false, none, some, [], ◌∷◌, map, arith, Text, text_eq, text_eq_iff,
  text_eq_refl, Dict, lookup, insert, lookup-insert, Distinct, subst, Bool-cases, inl, inr,
}
use cascade_proxy.HealthCheck.{Status, all_healthy}

-- Texts that differ do so in either order.
pub differ : (s t : Text) → text_eq t s ≡ false → text_eq s t ≡ false
differ s t e = elim (Bool-cases (text_eq s t)) [
  | inl same ↦ let back = (text_eq_iff t s).1 (sym ((text_eq_iff s t).0 same)) in cc
  | inr other ↦ other
]

pub Distinct-insert :
    {V : Type 0} (k : Text) (v : V) (m : Dict V) → Distinct m → Distinct (insert k v m)
unfolding insert lookup
Distinct-insert k v [] d = (refl, tt)
Distinct-insert k v ((j, u) ∷ m) (out, d) = elim (Bool-cases (text_eq j k)) [
  | inl same ↦ rw (same, sym ((text_eq_iff j k).0 same)) (out, d)
  | inr other ↦
      rw other (lookup-insert k j v m ∙ rw (differ k j other) out, Distinct-insert k v m d)
]

pub all_healthy_each :
    (m : Dict Status) (j : Text) (s : Status)
    → all_healthy (map (λ e. e.1) m) ≡ true
    → lookup j m ≡ some s
    → s.healthy ≡ true
unfolding all_healthy lookup
all_healthy_each [] j s h e = cc
all_healthy_each ((k, s0) ∷ m) j s h e = ground (arith, all_healthy_each m j s)

pub each_all_healthy :
    (m : Dict Status)
    → Distinct m
    → ((j : Text) (s : Status) → lookup j m ≡ some s → s.healthy ≡ true)
    → all_healthy (map (λ e. e.1) m) ≡ true
unfolding all_healthy lookup
each_all_healthy [] d f = refl
each_all_healthy ((k, s) ∷ m) (out, d) f =
    let first : s.healthy ≡ true = f k s (rw (text_eq_refl k) refl) in
    rw first (
      each_all_healthy m d (λ j s' e. elim (Bool-cases (text_eq k j)) [
        | inl same ↦
            let none_ : lookup j m ≡ none =
              subst (λ i. lookup i m ≡ none) ((text_eq_iff k j).0 same) out in
            cc
        | inr other ↦ f j s' (rw other e)
      ]))
