-- ===== src/Common/Splits.antt =====
-- strings.Split with a separator of one byte, and strings.Join.
use Prim.Native.Nat.{ℕ}
use mathlib.Core.Path.{◌≡◌, refl, ap, ◌∙◌}
use mathlib.Core.Logic.{◌≢◌, inl, inr}
use mathlib.Core.Bool.{true, false}
use mathlib.Core.List.{List, [], ◌∷◌, ◌++◌}
use native.Mathlib.Omega.{arith}
use cascade_proxy.Common.Tests.{◌==◌, if◌then◌else◌, Bool-cases}
use cascade_proxy.Common.Lists.{All}
use cascade_proxy.Common.Strings.{Text}

abbrev pub to_front : ℕ → List Text → List Text
to_front c [] = (c ∷ []) ∷ []
to_front c (part ∷ parts) = (c ∷ part) ∷ parts

-- strings.Split(s, string(sep))
unfoldable pub split : ℕ → Text → List Text
split sep [] = [] ∷ []
split sep (c ∷ s) = let rest = split sep s in if c == sep then [] ∷ rest else to_front c rest

-- strings.Join(parts, string(sep))
abbrev pub join : ℕ → List Text → Text
join sep [] = []
join sep (part ∷ []) = part
join sep (part ∷ next ∷ parts) = part ++ (sep ∷ join sep (next ∷ parts))

-- The byte is not in the text.
abbrev pub IsFree : ℕ → Text → Type 0
IsFree sep s = All (λ c. (c == sep) ≡ false) s

join-to_front : (sep c : ℕ) (parts : List Text) → join sep (to_front c parts) ≡ c ∷ join sep parts
join-to_front sep c [] = refl
join-to_front sep c (part ∷ []) = refl
join-to_front sep c (part ∷ next ∷ parts) = refl

join-empty :
    (sep : ℕ) (parts : List Text) → parts ≢ [] → join sep ([] ∷ parts) ≡ sep ∷ join sep parts
join-empty sep [] h = absurd (h refl)
join-empty sep (part ∷ parts) h = refl

split_cons :
    (sep : ℕ) (s : Text) → (part : Text) × (parts : List Text) × (split sep s ≡ part ∷ parts)
unfolding split
split_cons sep [] = ([], [], refl)
split_cons sep (c ∷ s) = elim (Bool-cases (c == sep)) [
  | inl here ↦ ([], split sep s, rw here refl)
  | inr other ↦ let (part, parts, e) = split_cons sep s in (c ∷ part, parts, rw (other, e) refl)
]

pub split-nonempty : (sep : ℕ) (s : Text) → split sep s ≢ []
split-nonempty sep s e = let (part, parts, cons) = split_cons sep s in cc

pub join-split : (sep : ℕ) (s : Text) → join sep (split sep s) ≡ s
unfolding split
join-split sep [] = refl
join-split sep (c ∷ s) = elim (Bool-cases (c == sep)) [
  | inl here ↦ rw here (
      join-empty sep (split sep s) (split-nonempty sep s)
      ∙ ap (◌∷◌ sep) (join-split sep s)
      ∙ ap (λ d. d ∷ s) (ground arith))
  | inr other ↦ rw other (join-to_front sep c (split sep s) ∙ ap (◌∷◌ c) (join-split sep s))
]

pub split_last : (sep : ℕ) (s : Text) → IsFree sep s → split sep s ≡ s ∷ []
unfolding split
split_last sep [] free = refl
split_last sep (c ∷ s) (other, free) = rw (other, split_last sep s free) refl

pub split_first :
    (sep : ℕ) (s rest : Text) → IsFree sep s → split sep (s ++ (sep ∷ rest)) ≡ s ∷ split sep rest
unfolding split
split_first sep [] rest free = let same : (sep == sep) ≡ true = ground arith in rw same refl
split_first sep (c ∷ s) rest (other, free) = rw (other, split_first sep s rest free) refl

-- The separator is in none of the parts.
pub split-IsFree : (sep : ℕ) (s : Text) → All (IsFree sep) (split sep s)
unfolding split
split-IsFree sep [] = (tt, tt)
split-IsFree sep (c ∷ s) = elim (Bool-cases (c == sep)) [
  | inl here ↦ rw here (tt, split-IsFree sep s)
  | inr other ↦
      let (part, parts, e) = split_cons sep s in
      let parted = split-IsFree sep s in
      let (first, free) = rw e at parted in rw (other, e) ((other, first), free)
]

-- Parts without the separator are found again.
pub split-join :
    (sep : ℕ) (parts : List Text)
    → parts ≢ []
    → All (IsFree sep) parts
    → split sep (join sep parts) ≡ parts
split-join sep [] some_ free = absurd (some_ refl)
split-join sep (part ∷ []) some_ (free, _) = split_last sep part free
split-join sep (part ∷ next ∷ parts) some_ (first, free) =
    split_first sep part (join sep (next ∷ parts)) first
    ∙ ap (◌∷◌ part) (split-join sep (next ∷ parts) (λ e. cc) free)
