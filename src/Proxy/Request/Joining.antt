-- ===== src/Proxy/Request/Joining.antt =====
-- What the joining of two paths gives.
use cascade_proxy.Common.{
  ◌≡◌, refl, ap, true, false, not, ◌&&◌, [], ◌∷◌, ◌++◌, arith, if◌then◌else◌, Text, append_assoc,
  append-nil, sym, ◌∙◌, Bool-cases, inl, inr, ◌==◌,
}
use cascade_proxy.Proxy.Request.{ends_in_slash, single_joining_slash, slash, is_empty}

-- A text without one slash at its end, or at its start.
abbrev pub without_last_slash : Text → Text
without_last_slash [] = []
without_last_slash (c ∷ []) = if c == b'/' then [] else c ∷ []
without_last_slash (c ∷ d ∷ s) = c ∷ without_last_slash (d ∷ s)

abbrev pub without_first_slash : Text → Text
without_first_slash [] = []
without_first_slash (c ∷ s) = if c == b'/' then s else c ∷ s

last_slash : (a : Text) → ends_in_slash a ≡ true → without_last_slash a ++ slash ≡ a
unfolding ends_in_slash
last_slash [] h = cc
last_slash (c ∷ []) h = ground arith
last_slash (c ∷ d ∷ s) h = ap (◌∷◌ c) (last_slash (d ∷ s) h)

no_last_slash : (a : Text) → ends_in_slash a ≡ false → without_last_slash a ≡ a
unfolding ends_in_slash
no_last_slash [] h = refl
no_last_slash (c ∷ []) h = ground arith
no_last_slash (c ∷ d ∷ s) h = ap (◌∷◌ c) (no_last_slash (d ∷ s) h)

joined_behind_slash :
    (a b : Text)
    → ends_in_slash a ≡ true
    → single_joining_slash a b ≡ (
        if not (ends_in_slash a) && is_empty b
        then a
        else without_last_slash a ++ (slash ++ without_first_slash b))
unfolding single_joining_slash
joined_behind_slash a [] ends = rw ends (append-nil a ∙ sym (last_slash a ends))
joined_behind_slash a (c ∷ b) ends =
    let split = append_assoc (without_last_slash a) slash b in
    let split' = append_assoc (without_last_slash a) slash (c ∷ b) in
    let whole = last_slash a ends in
    ground (arith, ap (λ s. s ++ b) whole, ap (λ s. s ++ (c ∷ b)) whole)

joined_without_slash :
    (a b : Text)
    → ends_in_slash a ≡ false
    → single_joining_slash a b ≡ (
        if not (ends_in_slash a) && is_empty b
        then a
        else without_last_slash a ++ (slash ++ without_first_slash b))
unfolding single_joining_slash
joined_without_slash a [] bare = rw bare
joined_without_slash a (c ∷ b) bare = ground (arith, no_last_slash a bare)

-- Two paths are joined by exactly one slash, whether the first ends in one, the second starts with
-- one, both or neither; only where the second is empty and the first ends in no slash, none is put
-- in.
pub single_joining_slash_lem :
    (a b : Text)
    → single_joining_slash a b ≡ (
        if not (ends_in_slash a) && is_empty b
        then a
        else without_last_slash a ++ (slash ++ without_first_slash b))
unfolding single_joining_slash
single_joining_slash_lem a b = elim (Bool-cases (ends_in_slash a)) [
  | inl ends ↦ joined_behind_slash a b ends
  | inr bare ↦ joined_without_slash a b bare
]
