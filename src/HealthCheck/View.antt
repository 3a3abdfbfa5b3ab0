-- ===== src/HealthCheck/View.antt =====
-- The statuses without the order of the map: what a probe leaves, whichever goroutine is done
-- first.
use mathlib.Core.List.{Perm, Permᴰ}
use mathlib.Core.Logic.{∥∥₁_elim}
use mathlib.Core.Quot
use mathlib.Core.Quot.{Quot, Quot-set}
use cascade_proxy.Common.{
  ℕ, ◌≡◌, refl, sym, ap, ◌∙◌, Bool, true, none, List, [], ◌∷◌, map, arith, if◌then◌else◌, Text,
  text_eq, text_eq_iff, Dict, lookup, Distinct, Bool-cases, Option-cases, inl, inr, subst,
}
use cascade_proxy.HealthCheck.{Status, Checker, Outcome, all_healthy, statuses_of, probe, handle}
use cascade_proxy.HealthCheck.Statuses.{all_healthy_each, each_all_healthy, differ}
use cascade_proxy.HealthCheck.Probe.{last_of, probe-lookup, probe-Distinct, kept_or}
use cascade_proxy.Http.{Header, Request, response, apply_all, apply}

-- A map in which a key stands once.
abbrev pub Statuses : Type 0
Statuses = (m : Dict Status) × Distinct m

-- Two maps say the same of each target.
abbrev pub SameStatuses : Statuses → Statuses → Type 0
SameStatuses m n = (j : Text) → lookup j m.0 ≡ lookup j n.0

abbrev pub View : Type 0
View = Quot SameStatuses

abbrev pub view : (c : Checker) → Distinct c.statuses → View
view c d = Quot.mk (c.statuses, d)

carries_over :
    (m n : Statuses)
    → SameStatuses m n
    → all_healthy (map (λ e. e.1) m.0) ≡ true
    → all_healthy (map (λ e. e.1) n.0) ≡ true
carries_over m n same all_ =
    each_all_healthy n.0 n.1 (λ j s found. all_healthy_each m.0 j s all_ (same j ∙ found))

pub same_health :
    (m n : Statuses)
    → SameStatuses m n
    → all_healthy (map (λ e. e.1) m.0) ≡ all_healthy (map (λ e. e.1) n.0)
same_health m n same = elim (Bool-cases (all_healthy (map (λ e. e.1) m.0))) [
  | inl all_ ↦ all_ ∙ sym (carries_over m n same all_)
  | inr some_ ↦ elim (Bool-cases (all_healthy (map (λ e. e.1) n.0))) [
    | inl all_ ↦ let back = carries_over n m (λ j. sym (same j)) all_ in cc
    | inr some2 ↦ some_ ∙ sym some2
  ]
]

-- Whether all are healthy can be read off the view.
unfoldable pub healthy : View → Bool
healthy = Quot.lift (hlevel) (λ m. all_healthy (map (λ e. e.1) m.0)) same_health

swap-lookup :
    (k l : Text) (o q : Outcome) (rest : Dict Outcome)
    → Distinct ((k, o) ∷ (l, q) ∷ rest)
    → Distinct ((l, q) ∷ (k, o) ∷ rest)
      × ((j : Text) → lookup j ((l, q) ∷ (k, o) ∷ rest) ≡ lookup j ((k, o) ∷ (l, q) ∷ rest))
unfolding lookup
swap-lookup k l o q rest (out, (out2, d)) = elim (Bool-cases (text_eq l k)) [
  | inl same ↦ let bad = rw same at out in cc
  | inr apart ↦ (
    (rw (differ k l apart) out2, (rw apart at out, d)),
    λ j. ground (arith, text_eq_iff k j, text_eq_iff l j, text_eq_iff l k),
  )
]

-- Of distinct targets a list says the same in each order.
Perm-lookup :
    {m n : List (Text × Outcome)}
    → Permᴰ m n
    → Distinct m
    → Distinct n × ((j : Text) → lookup j n ≡ lookup j m)
unfolding lookup
Perm-lookup Permᴰ.nil d = (tt, λ j. refl)
Perm-lookup {m} (Permᴰ.cons {a = (k, o)} {b = b} {l₂ = rest} e p) (out, d) =
    let (d', same) = Perm-lookup p d in
    subst (λ n. Distinct n × ((j : Text) → lookup j n ≡ lookup j m)) (ap (λ x. x ∷ rest) e)
      ((same k ∙ out, d'), λ j. rw (same j) refl)
Perm-lookup {m} (Permᴰ.swap {a = (k, o)} {b = (l, q)} {l = rest} e f) d =
    subst (λ n. Distinct n × ((j : Text) → lookup j n ≡ lookup j m)) (λ i. f i ∷ e i ∷ rest)
      (swap-lookup k l o q rest d)
Perm-lookup (Permᴰ.trans p q) d =
    let (d1, same1) = Perm-lookup p d in
    let (d2, same2) = Perm-lookup q d1 in (d2, λ j. same2 j ∙ same1 j)

last_of-lookup : (done : Dict Outcome) (j : Text) → Distinct done → last_of j done ≡ lookup j done
unfolding last_of lookup
last_of-lookup [] j d = refl
last_of-lookup ((target, o) ∷ done) j (out, d) =
    let ih = last_of-lookup done j d in
    elim (Bool-cases (text_eq target j)) [
      | inl same ↦
          let e = (text_eq_iff target j).0 same in
          let missing : last_of j done ≡ none = ih ∙ subst (λ i. lookup i done ≡ none) e out in
          rw (missing, same) refl
      | inr other ↦ elim (Option-cases (lookup j done)) [
        | inl missing ↦ rw (ih ∙ missing, other, missing) refl
        | inr (p, found) ↦ rw (ih ∙ found, other, found) refl
      ]
    ]

module _ (show_duration : ℕ → Text) where
  -- What a probe of distinct targets leaves does not depend on the order in which they are done.
  probe-view :
      {done done2 : List (Text × Outcome)} (c : Checker) (d : Distinct c.statuses)
      → Distinct done
      → Perm done done2
      → view (probe show_duration done c) (probe-Distinct show_duration done c d)
        ≡ view (probe show_duration done2 c) (probe-Distinct show_duration done2 c d)
  probe-view {done} {done2} c d distinct perm = ∥∥₁_elim perm (Quot-set _ _) (λ p.
      let (distinct2, same) = Perm-lookup p distinct in
      Quot.sound (λ j.
        let last_same : last_of j done2 ≡ last_of j done =
          last_of-lookup done2 j distinct2 ∙ same j ∙ sym (last_of-lookup done j distinct) in
        probe-lookup show_duration done c j
        ∙ ap (λ o. kept_or show_duration j o (lookup j c.statuses)) (sym last_same)
        ∙ sym (probe-lookup show_duration done2 c j)))

  module _ {W : Type 0} (encode : Bool → List Status → Text) where
    answer-healthy :
        (go : List Text → W → List (Text × Outcome) × W) (r : Request) (h : Header) (c : Checker)
        (w : W)
        → (response h (handle show_duration go encode r h (c, w)).0).status ≡ (
            if all_healthy (statuses_of (probe show_duration (go c.targets w).0 c))
            then 200
            else 503)
    unfolding handle response apply_all apply
    answer-healthy go r h c w =
        elim (Bool-cases (all_healthy (statuses_of (probe show_duration (go c.targets w).0 c)))) [
          | inl all_ ↦ rw all_ refl
          | inr some_ ↦ rw some_ refl
        ]

    -- Two health checks of one state, whose targets are distinct and are done in different orders
    -- with the same outcomes, leave maps that differ at most in their order: they are one view.
    -- Each answers 200 if all are healthy in this view, and else 503.
    pub handle-view :
        (go_all go_all2 : List Text → W → List (Text × Outcome) × W) (r : Request) (h : Header)
        (c : Checker) (w w2 : W) (d : Distinct c.statuses)
        → Distinct (go_all c.targets w).0
        → Perm (go_all c.targets w).0 (go_all2 c.targets w2).0
        → let (ops, (c1, _)) = handle show_duration go_all encode r h (c, w) in
          let (ops2, (c2, _)) = handle show_duration go_all2 encode r h (c, w2) in
          (d1 : Distinct c1.statuses) × (d2 : Distinct c2.statuses) × (view c1 d1 ≡ view c2 d2)
          × ((response h ops).status ≡ (if healthy (view c1 d1) then 200 else 503))
          × ((response h ops2).status ≡ (if healthy (view c1 d1) then 200 else 503))
    unfolding handle healthy
    handle-view go_all go_all2 r h c w w2 d distinct perm =
        let same = probe-view c d distinct perm in
        (
          probe-Distinct show_duration (go_all c.targets w).0 c d,
          probe-Distinct show_duration (go_all2 c.targets w2).0 c d,
          same,
          answer-healthy go_all r h c w,
          answer-healthy go_all2 r h c w2 ∙ ap (λ v. if healthy v then 200 else 503) (sym same),
        )
