-- ===== src/Common/Strings.antt =====
-- Go strings: sequences of bytes. The functions of the package `strings` that the proxy calls.
use Prim.Native.Nat.{ℕ}
use Prim.Native.Char.{code}
use Prim.Native.String.{String}
use mathlib.Core.Path.{◌≡◌, refl, ap, sym, ◌∙◌}
use mathlib.Core.Logic.{◌↔◌}
use mathlib.Core.Bool.{Bool, true, false, ◌&&◌, ◌||◌}
use mathlib.Core.List.{List, [], ◌∷◌, ◌++◌, reverse, reverse-append, reverse-reverse}
use mathlib.Core.Option.{Option, none, some}
use native.Mathlib.Omega.{arith}
use cascade_proxy.Common.Tests.{◌==◌, if◌then◌else◌}
use cascade_proxy.Common.Lists.{any}

abbrev pub Text : Type 0
Text = List ℕ

-- The bytes of an ASCII literal. Shut, so that a literal stays short in a goal.
unfoldable pub ascii : String → Text
ascii String.[] = []
ascii (String.◌∷◌ c s) = code c ∷ ascii s

-- a == b on strings
unfoldable pub text_eq : Text → Text → Bool
text_eq [] [] = true
text_eq (a ∷ s) (b ∷ t) = (a == b) && text_eq s t
text_eq _ _ = false

-- _, ok := set[k] on a set of strings
abbrev pub member : Text → List Text → Bool
member k ks = any (λ j. text_eq j k) ks

pub text_eq_refl : (s : Text) → text_eq s s ≡ true
unfolding text_eq
text_eq_refl [] = refl
text_eq_refl (a ∷ s) = ground (arith, text_eq_refl s)

pub eq_of_text_eq : (s t : Text) → text_eq s t ≡ true → s ≡ t
unfolding text_eq
eq_of_text_eq [] [] h = refl
eq_of_text_eq (a ∷ s) (b ∷ t) h = ground (arith, eq_of_text_eq s t)
eq_of_text_eq [] (b ∷ t) h = cc
eq_of_text_eq (a ∷ s) [] h = cc

pub text_eq_iff : (s t : Text) → (text_eq s t ≡ true) ↔ (s ≡ t)
text_eq_iff s t = (eq_of_text_eq s t, λ e. rw e (text_eq_refl t))

-- strings.HasPrefix together with strings.TrimPrefix: the rest of the text behind the prefix.
unfoldable pub after_prefix : Text → Text → Option Text
after_prefix [] s = some s
after_prefix (p ∷ ps) [] = none
after_prefix (p ∷ ps) (c ∷ s) = if p == c then after_prefix ps s else none

abbrev pub is_some {ℓ} : {A : Type ℓ} → Option A → Bool
is_some none = false
is_some (some _) = true

-- What the test of an option says of it.
pub is_some-some {ℓ} : {A : Type ℓ} (o : Option A) → is_some o ≡ true → (a : A) × (o ≡ some a)
is_some-some none e = absurd (ground arith)
is_some-some (some a) e = (a, refl)

pub is_some-none {ℓ} : {A : Type ℓ} (o : Option A) → is_some o ≡ false → o ≡ none
is_some-none none e = refl
is_some-none (some a) e = absurd (ground arith)

abbrev pub or_else {ℓ} : {A : Type ℓ} → Option A → A → A
or_else none d = d
or_else (some a) _ = a

-- strings.HasPrefix(s, prefix)
unfoldable pub has_prefix : Text → Text → Bool
unfolding after_prefix
has_prefix s p = is_some (after_prefix p s)

-- strings.TrimPrefix(s, prefix)
unfoldable pub trim_prefix : Text → Text → Text
unfolding after_prefix
trim_prefix s p = or_else (after_prefix p s) s

-- strings.HasSuffix(s, suffix)
unfoldable pub has_suffix : Text → Text → Bool
unfolding has_prefix
has_suffix s p = has_prefix (reverse s) (reverse p)

-- strings.TrimSuffix(s, suffix)
unfoldable pub trim_suffix : Text → Text → Text
unfolding trim_prefix
trim_suffix s p = reverse (trim_prefix (reverse s) (reverse p))

-- strings.Contains(s, sub)
unfoldable pub contains : Text → Text → Bool
unfolding has_prefix
contains [] sub = has_prefix [] sub
contains (c ∷ s) sub = has_prefix (c ∷ s) sub || contains s sub

-- The texts one after another.
abbrev pub concat : List Text → Text
concat [] = []
concat (t ∷ ts) = t ++ concat ts

pub after_prefix_lem : (p s : Text) → after_prefix p (p ++ s) ≡ some s
unfolding after_prefix
after_prefix_lem [] s = refl
after_prefix_lem (c ∷ p) s = ground (arith, after_prefix_lem p s)

pub after_prefix-append : (p s t : Text) → after_prefix p s ≡ some t → s ≡ p ++ t
unfolding after_prefix
after_prefix-append [] s t h = ground arith
after_prefix-append (c ∷ p) [] t h = cc
after_prefix-append (c ∷ p) (d ∷ s) t h = ground (arith, after_prefix-append p s t)

-- `has_prefix` decides whether the text is the prefix followed by something.
pub has_prefix_iff : (s p : Text) → (has_prefix s p ≡ true) ↔ ((t : Text) × (s ≡ p ++ t))
unfolding has_prefix
has_prefix_iff s p = (to, λ (t, e). rw (e, after_prefix_lem p t))
  where
    open_rest :
        (o : Option Text) → after_prefix p s ≡ o → is_some o ≡ true → (t : Text) × (s ≡ p ++ t)
    open_rest none e h = cc
    open_rest (some t) e h = (t, after_prefix-append p s t e)

    to : is_some (after_prefix p s) ≡ true → (t : Text) × (s ≡ p ++ t)
    to h = open_rest (after_prefix p s) refl h

pub trim_prefix-append : (p t : Text) → trim_prefix (p ++ t) p ≡ t
unfolding trim_prefix
trim_prefix-append p t = rw (after_prefix_lem p t)

pub trim_suffix-append : (s p : Text) → trim_suffix (s ++ p) p ≡ s
unfolding trim_suffix
trim_suffix-append s p =
    ap (λ r. reverse (trim_prefix r (reverse p))) (reverse-append s p)
    ∙ ap reverse (trim_prefix-append (reverse p) (reverse s))
    ∙ reverse-reverse s

-- `has_suffix` decides whether the text is something followed by the suffix.
pub has_suffix_iff : (s p : Text) → (has_suffix s p ≡ true) ↔ ((t : Text) × (s ≡ t ++ p))
unfolding has_suffix
has_suffix_iff s p = (
  λ h.
      let (t, e) = (has_prefix_iff (reverse s) (reverse p)).0 h in
      (
        reverse t,
        sym (reverse-reverse s)
            ∙ ap reverse e
            ∙ reverse-append (reverse p) t
            ∙ ap (λ q. reverse t ++ q) (reverse-reverse p),
      ),
  λ (t, e).
      (has_prefix_iff (reverse s) (reverse p)).1 (reverse t, ap reverse e ∙ reverse-append t p),
)
