-- ===== src/Middleware/Redirect.antt =====
-- internal/middleware/redirect.go. http.Redirect is a parameter.
use cascade_proxy.Common.{
  ℕ, ◌≡◌, ◌↔◌, refl, Bool, true, false, not, ◌&&◌, List, [], ◌∷◌, ◌++◌, ◌==◌, if◌then◌else◌, Text,
  ascii, text_eq, has_prefix, has_suffix, trim_prefix, trim_suffix, has_prefix_iff, has_suffix_iff,
  trim_prefix-append, trim_suffix-append, append_assoc, append-nil, Bool-cases, inl, inr,
}
use cascade_proxy.Http.{Handler, WriteOp, Request}

pub record Rule : Type 0 where
  pub src : Text  -- From
  pub dst : Text  -- To
  pub code : ℕ

pub record Config : Type 0 where
  pub rules : List Rule

abbrev pub default_config : Config
default_config = record { rules = [] }

abbrev pub wildcard : Text
wildcard = ascii "/*"

abbrev pub slash : Text
slash = b'/' ∷ []

unfoldable pub match_redirect : Text → Text → Bool
match_redirect path src =
    if has_suffix src wildcard then has_prefix path (trim_suffix src wildcard) else text_eq path src

unfoldable pub build_redirect_target : Request → Rule → Text
build_redirect_target r rule =
    let rest = trim_prefix r.path (trim_suffix rule.src wildcard) in
    let target =
      if has_suffix rule.src wildcard && (not (text_eq rest []) && not (text_eq rest slash))
      then trim_suffix rule.dst slash ++ rest
      else rule.dst in
    if not (text_eq r.raw_query []) then target ++ ((b'?' ∷ []) ++ r.raw_query) else target

module _ {W : Type 0} (redirect : Request → Text → ℕ → List WriteOp) where
  -- the loop over the rules
  unfoldable pub try_rules : List Rule → Handler W → Handler W
  unfolding match_redirect build_redirect_target
  try_rules [] next r h w = next r h w
  try_rules (rule ∷ rules) next r h w =
      let rest = try_rules rules next r h w in
      if match_redirect r.path rule.src
      then (
        redirect r (build_redirect_target r rule) (if rule.code == 0 then 302 else rule.code),
        w,
      )
      else rest

  -- The handler that NewRedirectMiddleware makes.
  unfoldable pub handle : Config → Handler W → Handler W
  unfolding try_rules
  handle cfg next r h w = try_rules cfg.rules next r h w

-- A rule whose source ends in the wildcard matches each path that starts with what stands before
-- the wildcard, and no other: also a path in which no slash follows.
pub wildcard_iff :
    (path before : Text)
    → (match_redirect path (before ++ wildcard) ≡ true) ↔ ((rest : Text) × (path ≡ before ++ rest))
unfolding match_redirect
wildcard_iff path before =
    rw
      (
        (has_suffix_iff (before ++ wildcard) wildcard).1 (before, refl),
        trim_suffix-append before wildcard,
      )
      (has_prefix_iff path before)

-- For a rule whose source ends in the wildcard, and a request whose path is what stands before the
-- wildcard and then a rest that is neither empty nor a single slash, the target of the redirect is
-- the rule's, less a slash at its end, followed by the rest of the path and the query, if there is
-- one.
pub wildcard_target :
    (r : Request) (rule : Rule) (before rest : Text)
    → rule.src ≡ before ++ wildcard
    → r.path ≡ before ++ rest
    → text_eq rest [] ≡ false
    → text_eq rest slash ≡ false
    → build_redirect_target r rule
      ≡ trim_suffix rule.dst slash
        ++ (rest ++ (if text_eq r.raw_query [] then [] else (b'?' ∷ []) ++ r.raw_query))
unfolding build_redirect_target
wildcard_target r rule before rest from path some_ more =
    rw
      (
        from,
        path,
        (has_suffix_iff (before ++ wildcard) wildcard).1 (before, refl),
        trim_suffix-append before wildcard,
        trim_prefix-append before rest,
        some_,
        more,
      )
      (elim (Bool-cases (text_eq r.raw_query [])) [
        | inl bare ↦ rw (bare, append-nil rest) refl
        | inr query ↦ rw query (append_assoc (trim_suffix rule.dst slash) rest _)
      ])
