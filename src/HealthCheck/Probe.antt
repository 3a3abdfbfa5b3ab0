-- ===== src/HealthCheck/Probe.antt =====
-- What a probe finds, in whichever order the targets are done.
use cascade_proxy.Common.{
  ℕ, ◌≡◌, ◌≢◌, ◌↔◌, ◌⊎◌, ◌==◌, refl, sym, ap, ◌∙◌, Bool, true, false, Option, none, some, List, [],
  ◌∷◌, arith, if◌then◌else◌, Text, text_eq, text_eq_iff, member, lookup, lookup-insert, Distinct,
  is_some, is_some-none, is_some-some, Bool-cases, inl, inr,
}
use cascade_proxy.Http.{Header, Request, response, apply_all, apply}
use cascade_proxy.HealthCheck.{
  Status, Checker, Outcome, is_healthy, latency_of, statuses_of, all_healthy, probe_one, probe,
  handle,
}
use cascade_proxy.HealthCheck.Statuses.{Distinct-insert, all_healthy_each, each_all_healthy}

-- What was seen of a target last.
unfoldable pub last_of : Text → List (Text × Outcome) → Option Outcome
last_of j [] = none
last_of j ((target, o) ∷ done) = elim (last_of j done) [
  | some later ↦ some later
  | none ↦ if text_eq target j then some o else none
]

-- No status is kept of a text that is no target.
abbrev pub IsKnown : Checker → Type 0
IsKnown c =
    Distinct c.statuses × ((j : Text) → member j c.targets ≡ false → lookup j c.statuses ≡ none)

-- Each target is among these, and these are targets.
abbrev pub Covers : List Text → List (Text × Outcome) → Type 0
Covers targets done = (j : Text) → is_some (last_of j done) ≡ member j targets

-- Each target was found healthy, the last time that it was asked.
abbrev pub EachHealthy : List Text → List (Text × Outcome) → Type 0
EachHealthy targets done =
    (j : Text)
    → member j targets ≡ true
    → (o : Outcome) × (last_of j done ≡ some o) × (is_healthy o ≡ true)

statuses_differ : ◌≢◌ {A = ℕ} 503 200
statuses_differ = ground arith

module _ (show_duration : ℕ → Text) where
  abbrev pub status_of : Text → Outcome → Status
  status_of target o = record {
    target = target;
    healthy = is_healthy o;
    latency = show_duration (latency_of o);
  }

  abbrev pub kept_or : Text → Option Outcome → Option Status → Option Status
  kept_or j none old = old
  kept_or j (some o) old = some (status_of j o)

  later_or :
      (later : Option Outcome) (target : Text) (o : Outcome) (j : Text) (old : Option Status)
      → kept_or j later (if text_eq target j then some (status_of target o) else old)
        ≡ kept_or j
            (elim later [ some l ↦ some l | none ↦ if text_eq target j then some o else none ])
            old
  later_or (some l) target o j old = refl
  later_or none target o j old = elim (Bool-cases (text_eq target j)) [
    | inl same ↦ rw same (ap (λ t. some (status_of t o)) ((text_eq_iff target j).0 same))
    | inr other ↦ rw other refl
  ]

  pub probe-lookup :
      (done : List (Text × Outcome)) (c : Checker) (j : Text)
      → lookup j (probe show_duration done c).statuses
        ≡ kept_or j (last_of j done) (lookup j c.statuses)
  unfolding probe probe_one last_of
  probe-lookup [] c j = refl
  probe-lookup ((target, o) ∷ done) c j =
      probe-lookup done (probe_one show_duration target o c) j
      ∙ rw (lookup-insert target j (status_of target o) c.statuses)
          (later_or (last_of j done) target o j (lookup j c.statuses))

  pub probe-Distinct :
      (done : List (Text × Outcome)) (c : Checker)
      → Distinct c.statuses
      → Distinct (probe show_duration done c).statuses
  unfolding probe probe_one
  probe-Distinct [] c d = d
  probe-Distinct ((target, o) ∷ done) c d =
      probe-Distinct done (probe_one show_duration target o c)
        (Distinct-insert target (status_of target o) c.statuses d)

  probe-targets :
      (done : List (Text × Outcome)) (c : Checker)
      → (probe show_duration done c).targets ≡ c.targets
  unfolding probe probe_one
  probe-targets [] c = refl
  probe-targets ((target, o) ∷ done) c = probe-targets done (probe_one show_duration target o c)

  -- A probe of all targets leaves no other status.
  probe-IsKnown :
      (done : List (Text × Outcome)) (c : Checker)
      → IsKnown c
      → Covers c.targets done
      → IsKnown (probe show_duration done c)
  probe-IsKnown done c (d, known) covers = (
    probe-Distinct done c d,
    λ j out.
        let out' : member j c.targets ≡ false = ap (member j) (sym (probe-targets done c)) ∙ out in
        let unseen : last_of j done ≡ none = is_some-none (last_of j done) (covers j ∙ out') in
        probe-lookup done c j ∙ rw unseen (known j out'),
  )

  -- After it, the statuses are all healthy just if each target was last found to be.
  probe-all_healthy :
      (done : List (Text × Outcome)) (c : Checker)
      → IsKnown c
      → Covers c.targets done
      → (all_healthy (statuses_of (probe show_duration done c)) ≡ true) ↔ EachHealthy c.targets done
  probe-all_healthy done c (d, known) covers =
      let c' = probe show_duration done c in
      (
        λ all j here.
            let (o, seen) = is_some-some (last_of j done) (covers j ∙ here) in
            (
              o,
              seen,
              all_healthy_each c'.statuses j (status_of j o) all
                  (probe-lookup done c j ∙ rw seen refl),
            ),
        λ each. each_all_healthy c'.statuses (probe-Distinct done c d) (λ j s found.
            elim (Bool-cases (member j c.targets)) [
              | inl here ↦
                  let (o, seen, well) = each j here in
                  let same : kept_or j (some o) (lookup j c.statuses) ≡ some s =
                    sym (probe-lookup done c j ∙ rw seen refl) ∙ found in
                  sym
                    (ap (λ (x : Option Status). elim x [ none ↦ false | some t ↦ t.healthy ]) same)
                  ∙ well
              | inr out ↦
                  let unseen : last_of j done ≡ none =
                    is_some-none (last_of j done) (covers j ∙ out) in
                  let gone : lookup j c'.statuses ≡ none =
                    probe-lookup done c j ∙ rw unseen (known j out) in
                  cc
            ]),
      )

  module _ {W : Type 0} (go_all : List Text → W → List (Text × Outcome) × W)
      (encode : Bool → List Status → Text) where
    -- Where the statuses belong to targets, as at first, and a probe gets done with each target and
    -- no other, in any order, the statuses belong to targets again, and the answer is 200 just if
    -- each target was found healthy, the last time where a target is named repeatedly; else it is
    -- 503. The body says which, and the status of each target.
    pub handle-EachHealthy :
        (r : Request) (h : Header) (c : Checker) (w : W)
        → IsKnown c
        → Covers c.targets (go_all c.targets w).0
        → let c' = (handle show_duration go_all encode r h (c, w)).1.0 in
          let got = response h (handle show_duration go_all encode r h (c, w)).0 in
          IsKnown c'
          × ((got.status ≡ 200) ↔ EachHealthy c.targets (go_all c.targets w).0)
          × ((got.status ≡ 200) ⊎ (got.status ≡ 503))
          × (got.body ≡ encode (got.status == 200) (statuses_of c'))
    unfolding handle response apply_all apply
    handle-EachHealthy r h c w known covers =
        let done = (go_all c.targets w).0 in
        let iff = probe-all_healthy done c known covers in
        let kept = probe-IsKnown done c known covers in
        elim (Bool-cases (all_healthy (statuses_of (probe show_duration done c)))) [
          | inl all ↦ rw all (kept, (λ _. iff.0 all, λ _. refl), inl refl, refl)
          | inr some_ ↦ rw some_ (
            kept,
            (λ e. absurd (statuses_differ e), λ each. let all = iff.1 each in cc),
            inr refl,
            refl,
          )
        ]
