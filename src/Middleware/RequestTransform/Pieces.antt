-- ===== src/Middleware/RequestTransform/Pieces.antt =====
-- What a replacement does to a text.
use cascade_proxy.Common.{
  ℕ, zero, suc, ◌-◌, ◌≤◌, ◌≡◌, ◌≢◌, refl, sym, ap, ◌∙◌, false, List, [], ◌∷◌, ◌++◌, arith, length,
  length-append, append_assoc, append-nil, drop, All, Text, has_prefix, has_prefix_iff,
  after_prefix, contains, Bool-cases, inl, inr, subst,
}
use cascade_proxy.Middleware.RequestTransform.{replace_from, replace_all}

-- The pieces with the text between each two.
abbrev pub join : Text → Text → List Text → Text
join between first [] = first
join between first (piece ∷ pieces) = first ++ (between ++ join between piece pieces)

-- The text comes apart, at places where `old` stands, into pieces in which it does not occur, and
-- `new` stands between the same pieces.
pub record Replaced (old new s t : Text) : Type 0 where
  pub first : Text
  pub pieces : List Text
  pub was : s ≡ join old first pieces
  pub is : t ≡ join new first pieces
  pub clean : All (λ p. contains p old ≡ false) (first ∷ pieces)

-- A shorter text has no more in it.
has_prefix-append : (s t p : Text) → has_prefix (s ++ t) p ≡ false → has_prefix s p ≡ false
has_prefix-append s t p h = elim (Bool-cases (has_prefix s p)) [
  | inr out ↦ out
  | inl in_ ↦
      let (rest, e) = (has_prefix_iff s p).0 in_ in
      let there =
        (has_prefix_iff (s ++ t) p).1 (rest ++ t, ap (λ u. u ++ t) e ∙ append_assoc p rest t) in
      cc
]

abbrev rest_of : Text → List Text → Text
rest_of between [] = []
rest_of between (piece ∷ pieces) = between ++ join between piece pieces

join_first :
    (between first : Text) (pieces : List Text)
    → join between first pieces ≡ first ++ rest_of between pieces
join_first between first [] = sym (append-nil first)
join_first between first (piece ∷ pieces) = refl

join_cons :
    (between : Text) (c : ℕ) (first : Text) (pieces : List Text)
    → join between (c ∷ first) pieces ≡ c ∷ join between first pieces
join_cons between c first [] = refl
join_cons between c first (piece ∷ pieces) = refl

drop_prefix : (p t : Text) → drop (length p) (p ++ t) ≡ t
drop_prefix [] t = refl
drop_prefix (c ∷ p) t = drop_prefix p t

module _ (d : ℕ) (old new : Text) where
  one_more :
      (c : ℕ) (s t : Text)
      → has_prefix (c ∷ s) (d ∷ old) ≡ false
      → Replaced (d ∷ old) new s t
      → Replaced (d ∷ old) new (c ∷ s) (c ∷ t)
  unfolding contains
  one_more c s t none_ rep = record {
    first = c ∷ rep.first;
    pieces = rep.pieces;
    was = ap (◌∷◌ c) rep.was ∙ sym (join_cons (d ∷ old) c rep.first rep.pieces);
    is = ap (◌∷◌ c) rep.is ∙ sym (join_cons new c rep.first rep.pieces);
    clean =
        let whole : has_prefix (c ∷ (rep.first ++ rest_of (d ∷ old) rep.pieces)) (d ∷ old) ≡ false =
          ap (λ u. has_prefix (c ∷ u) (d ∷ old))
            (sym (rep.was ∙ join_first (d ∷ old) rep.first rep.pieces))
          ∙ none_ in
        let out =
          has_prefix-append (c ∷ rep.first) (rest_of (d ∷ old) rep.pieces) (d ∷ old) whole in
        (rw (out, rep.clean.0) refl, rep.clean.1);
  }

  here_found :
      (c : ℕ) (s t : Text)
      → c ∷ s ≡ (d ∷ old) ++ drop (length old) s
      → Replaced (d ∷ old) new (drop (length old) s) t
      → Replaced (d ∷ old) new (c ∷ s) (new ++ t)
  unfolding contains has_prefix after_prefix
  here_found c s t e rep = record {
    first = [];
    pieces = rep.first ∷ rep.pieces;
    was = e ∙ ap (λ u. (d ∷ old) ++ u) rep.was;
    is = ap (◌++◌ new) rep.is;
    clean = (refl, rep.clean);
  }

  replace_from-Replaced :
      (n : ℕ) (s : Text)
      → n ≤ length s
      → Replaced (d ∷ old) new (drop n s) (replace_from n (d ∷ old) new s)
  unfolding replace_from contains has_prefix after_prefix
  replace_from-Replaced zero [] h = record {
    first = [];
    pieces = [];
    was = refl;
    is = refl;
    clean = (refl, tt);
  }
  replace_from-Replaced (suc n) [] h = absurd (ground arith)
  replace_from-Replaced (suc n) (c ∷ s) h = replace_from-Replaced n s (omega arith)
  replace_from-Replaced zero (c ∷ s) h = elim (Bool-cases (has_prefix (c ∷ s) (d ∷ old))) [
    | inr none_ ↦ rw none_ (one_more c s _ none_ (replace_from-Replaced zero s (omega arith)))
    | inl in_ ↦
        let (rest, e) = (has_prefix_iff (c ∷ s) (d ∷ old)).0 in_ in
        let e' : s ≡ old ++ rest = ap (drop 1) e in
        let behind : drop (length old) s ≡ rest =
          ap (drop (length old)) e' ∙ drop_prefix old rest in
        let fits : length old ≤ length s = omega (arith, ap length e', length-append old rest) in
        let same : length old ≡ suc (length old) - 1 = omega arith in
        rw in_ (
          here_found c s _ (e ∙ ap (λ u. (d ∷ old) ++ u) (sym behind)) (
            subst
              (λ n. Replaced (d ∷ old) new (drop (length old) s) (replace_from n (d ∷ old) new s))
              same (replace_from-Replaced (length old) s fits)))
  ]

-- A replacement of a text that is not empty takes the body apart, at places where that text stands,
-- into pieces in which it does not occur, and puts the new text in just these places.
pub replace_all-Replaced :
    (char_len : Text → ℕ) (s old new : Text)
    → old ≢ []
    → Replaced old new s (replace_all char_len s old new)
unfolding replace_all
replace_all-Replaced char_len s [] new some_ = absurd (some_ refl)
replace_all-Replaced char_len s (d ∷ old) new some_ =
    replace_from-Replaced d old new zero s (omega arith)
