-- ===== src/Balancer/Targets.antt =====
-- What `New` accepts, and what it makes of it.
use cascade_proxy.Common.{
  ◌≡◌, refl, sym, ap, ◌∙◌, ◌≢◌, ◌↔◌, inl, inr, List, [], ◌∷◌, ◌++◌, map, append_assoc, append-nil,
  Text, Result, ok, Result-cases, arith, subst,
}
use cascade_proxy.Balancer.{Config, Balancer, parse_all, new}

module _ {Url E : Type 0} (parse : Text → Result E Url) where
  -- The texts parse to the URLs, one by one.
  abbrev pub Parses : List Text → List Url → Type 0
  Parses ts us = map parse ts ≡ map ok us

  parse_all-Parses :
      (done us : List Url) (ts : List Text)
      → parse_all parse done ts ≡ ok us
      → (more : List Url) × (us ≡ done ++ more) × Parses ts more
  unfolding parse_all
  parse_all-Parses done us [] e = ([], rw append-nil (ground arith), refl)
  parse_all-Parses done us (t ∷ ts) e = elim (Result-cases (parse t)) [
    | inl (u, parsed) ↦
        let (more, joined, each) =
          parse_all-Parses (done ++ (u ∷ [])) us ts (rw (parsed, parse_all) at e) in
        (u ∷ more, joined ∙ append_assoc done (u ∷ []) more, rw (parsed, each))
    | inr (x, failed) ↦ cc (rw (failed, parse_all) at e)
  ]

  parse_all_of_Parses :
      (done us : List Url) (ts : List Text)
      → Parses ts us
      → parse_all parse done ts ≡ ok (done ++ us)
  unfolding parse_all
  parse_all_of_Parses done [] [] p = rw append-nil
  parse_all_of_Parses done (u ∷ us) [] p = cc
  parse_all_of_Parses done [] (t ∷ ts) p = cc
  parse_all_of_Parses done (u ∷ us) (t ∷ ts) p =
      let parsed : parse t ≡ ok u = cc in
      rw (parsed, parse_all)
        (parse_all_of_Parses (done ++ (u ∷ [])) us ts (cc) ∙ ap ok (append_assoc done (u ∷ []) us))

  made :
      (ts : List Text) (b : Balancer Url)
      → new parse (record { targets = ts }) ≡ ok b
      → (ts ≢ []) × Parses ts b.targets × (b.counter ≡ 0)
  unfolding new
  made [] b e = cc
  made (t ∷ ts) b e = elim (Result-cases (parse_all parse [] (t ∷ ts))) [
    | inl (us, parsed) ↦
        let (more, same, each) = parse_all-Parses [] us (t ∷ ts) parsed in
        let e' = rw (parsed, new) at e in
        let held : us ≡ b.targets = ground arith in
        ((λ empty. cc), subst (Parses (t ∷ ts)) (sym same ∙ held) each, ground arith)
    | inr (x, failed) ↦ cc (rw (failed, new) at e)
  ]

  pub new-counter : (cfg : Config) (b : Balancer Url) → new parse cfg ≡ ok b → b.counter ≡ 0
  new-counter cfg b e = (made cfg.targets b e).2

  remade :
      (ts : List Text) (b : Balancer Url)
      → (ts ≢ []) × Parses ts b.targets × (b.counter ≡ 0)
      → new parse (record { targets = ts }) ≡ ok b
  unfolding new
  remade [] b (some_, each, zeroed) = absurd (some_ refl)
  remade (t ∷ ts) b (some_, each, zeroed) =
      rw (parse_all_of_Parses [] b.targets (t ∷ ts) each) (ground arith)

  -- `New` succeeds with a balancer exactly if there is a target, the targets parse to those of the
  -- balancer, one by one and in order, and its counter is zero.
  pub new_iff :
      (cfg : Config) (b : Balancer Url)
      → (new parse cfg ≡ ok b)
        ↔ ((cfg.targets ≢ []) × Parses cfg.targets b.targets × (b.counter ≡ 0))
  new_iff cfg b = (made cfg.targets b, remade cfg.targets b)
