-- ===== src/Middleware/ResponseTransform/Matching.antt =====
-- The search for a substring that the file writes itself.
use cascade_proxy.Common.{
  ℕ, zero, suc, ◌+◌, ◌-◌, ◌<◌, ◌≡◌, ◌↔◌, refl, sym, ap, ◌∙◌, true, false, ◌||◌, List, [], ◌∷◌, ◌++◌,
  arith, leb, length, is_nil, take, any, Text, text_eq, has_prefix, has_prefix_iff, after_prefix,
  contains, Bool-cases, inl, inr,
}
use cascade_proxy.Middleware.ResponseTransform.{
  found_from, contains_substring, matches_any, matches_content_type,
}

take-has_prefix : (s p : Text) → text_eq (take (length p) s) p ≡ has_prefix s p
unfolding text_eq has_prefix after_prefix
take-has_prefix s [] = refl
take-has_prefix [] (d ∷ p) = refl
take-has_prefix (c ∷ s) (d ∷ p) = ground (arith, take-has_prefix s p)

has_prefix_short : (s p : Text) → length s < length p → has_prefix s p ≡ false
unfolding has_prefix after_prefix
has_prefix_short s [] h = ground arith
has_prefix_short [] (d ∷ p) h = refl
has_prefix_short (c ∷ s) (d ∷ p) h = ground (arith, has_prefix_short s p)

contains_short : (s p : Text) → length s < length p → contains s p ≡ false
unfolding contains
contains_short [] p h = has_prefix_short [] p h
contains_short (c ∷ s) p h = rw (has_prefix_short (c ∷ s) p h) (contains_short s p (omega arith))

found_from_cons :
    (n i c : ℕ) (s sub : Text) → found_from n (suc i) (c ∷ s) sub ≡ found_from n i s sub
unfolding found_from
found_from_cons zero i c s sub = refl
found_from_cons (suc n) i c s sub = rw (found_from_cons n (suc i) c s sub) refl

found_exact :
    (n : ℕ) (s sub : Text) → n + length sub ≡ suc (length s) → found_from n 0 s sub ≡ contains s sub
unfolding found_from contains
found_exact zero [] sub h = sym (has_prefix_short [] sub (omega arith))
found_exact (suc zero) [] sub h = rw (take-has_prefix [] sub) (ground arith)
found_exact (suc (suc n)) [] sub h = absurd (ground arith)
found_exact zero (c ∷ s) sub h = sym (contains_short (c ∷ s) sub (omega arith))
found_exact (suc n) (c ∷ s) sub h =
    rw (take-has_prefix (c ∷ s) sub, found_from_cons n 0 c s sub, found_exact n s sub (omega arith))
      (ground arith)

-- The loop finds what strings.Contains finds.
pub contains_substring-contains : (s sub : Text) → contains_substring s sub ≡ contains s sub
unfolding contains_substring
contains_substring-contains s sub = elim (Bool-cases (leb (length sub) (length s))) [
  | inl fits ↦ rw fits (found_exact (suc (length s - length sub)) s sub (ground arith))
  | inr longer ↦ rw (longer, contains_short s sub (ground arith)) refl
]

prefix_contains : (s p : Text) → has_prefix s p ≡ true → contains s p ≡ true
unfolding contains
prefix_contains [] p h = h
prefix_contains (c ∷ s) p h = rw h refl

contains_at : (a sub b : Text) → contains (a ++ (sub ++ b)) sub ≡ true
unfolding contains
contains_at [] sub b =
    let here = (has_prefix_iff (sub ++ b) sub).1 (b, refl) in prefix_contains (sub ++ b) sub here
contains_at (c ∷ a) sub b = rw (contains_at a sub b) (ground arith)

contains_parts :
    (s sub : Text) → contains s sub ≡ true → (a : Text) × (b : Text) × (s ≡ a ++ (sub ++ b))
unfolding contains
contains_parts [] sub h = let (b, e) = (has_prefix_iff [] sub).0 h in ([], b, e)
contains_parts (c ∷ s) sub h = elim (Bool-cases (has_prefix (c ∷ s) sub)) [
  | inl here ↦ let (b, e) = (has_prefix_iff (c ∷ s) sub).0 here in ([], b, e)
  | inr later ↦ let (a, b, e) = contains_parts s sub (rw later at h) in (c ∷ a, b, ap (◌∷◌ c) e)
]

-- containsSubstring holds just if the one text occurs in the other, at its ends or in between.
pub contains_substring_iff :
    (s sub : Text)
    → (contains_substring s sub ≡ true) ↔ ((a : Text) × (b : Text) × (s ≡ a ++ (sub ++ b)))
contains_substring_iff s sub = (
  λ h. contains_parts s sub (sym (contains_substring-contains s sub) ∙ h),
  λ (a, b, e). contains_substring-contains s sub ∙ ap (λ t. contains t sub) e ∙ contains_at a sub b,
)

matches_any_lem :
    (ct : Text) (allowed : List Text) → matches_any ct allowed ≡ any (contains ct) allowed
unfolding matches_any
matches_any_lem ct [] = refl
matches_any_lem ct (b ∷ bs) = elim (Bool-cases (leb (length b) (length ct))) [
  | inl fits ↦ rw (fits, contains_substring-contains ct b, matches_any_lem ct bs) (ground arith)
  | inr longer ↦ rw (longer, contains_short ct b (ground arith)) (matches_any_lem ct bs)
]

-- A response is rewritten just if no content types are listed, or its own contains one of them.
pub matches_content_type_lem :
    (ct : Text) (allowed : List Text)
    → matches_content_type ct allowed ≡ (is_nil allowed || any (contains ct) allowed)
unfolding matches_content_type
matches_content_type_lem ct [] = refl
matches_content_type_lem ct (a ∷ allowed) = matches_any_lem ct (a ∷ allowed)
