-- ===== src/Middleware/Rewrite.antt =====
-- internal/middleware/rewrite.go. Regular expressions and the method RequestURI of the URL are
-- parameters.
use cascade_proxy.Common.{
  ◌≡◌, refl, Bool, true, false, List, [], ◌∷◌, ◌++◌, if◌then◌else◌, Text, text_eq, trim_prefix,
  trim_prefix-append,
}
use cascade_proxy.Http.{Handler, Request}

pub record Rule (Regexp : Type 0) : Type 0 where
  pub pattern : Regexp
  pub replacement : Text

pub record Config (Regexp : Type 0) : Type 0 where
  pub rules : List (Rule Regexp)
  pub strip_prefix : Text

abbrev pub default_config : {Regexp : Type 0} → Config Regexp
default_config = record { rules = []; strip_prefix = [] }

abbrev pub slash : Text
slash = b'/' ∷ []

-- what is left of the path without the prefix
unfoldable pub strip : Text → Text → Text
strip prefix path =
    if text_eq prefix []
    then path
    else let rest = trim_prefix path prefix in if text_eq rest [] then slash else rest

module _ {Regexp : Type 0} (matches : Regexp → Text → Bool)
    (replace_all : Regexp → Text → Text → Text) (request_uri : Request → Text) where
  -- the loop over the rules
  unfoldable pub apply_rules : List (Rule Regexp) → Text → Text
  apply_rules [] path = path
  apply_rules (rule ∷ rules) path =
      let rest = apply_rules rules path in
      if matches rule.pattern path then replace_all rule.pattern path rule.replacement else rest

  unfoldable pub new_path : Config Regexp → Text → Text
  unfolding apply_rules strip
  new_path cfg path = strip cfg.strip_prefix (apply_rules cfg.rules path)

  -- The handler that NewRewriteMiddleware makes.
  unfoldable pub handle : {W : Type 0} → Config Regexp → Handler W → Handler W
  unfolding new_path
  handle cfg next r h w =
      let moved = record r { path = new_path cfg r.path } in
      next (record moved { request_uri = request_uri moved }) h w

  abbrev pub Unmatched : Text → List (Rule Regexp) → Type 0
  Unmatched path [] = Unit
  Unmatched path (rule ∷ rules) = (matches rule.pattern path ≡ false) × Unmatched path rules

  apply_rules-first :
      (before after : List (Rule Regexp)) (rule : Rule Regexp) (path : Text)
      → Unmatched path before
      → matches rule.pattern path ≡ true
      → apply_rules (before ++ (rule ∷ after)) path ≡ replace_all rule.pattern path rule.replacement
  unfolding apply_rules
  apply_rules-first [] after rule path u m = rw m refl
  apply_rules-first (r ∷ before) after rule path (miss, u) m =
      rw miss (apply_rules-first before after rule path u m)

  -- The first rule that matches the request's path rewrites it, and the rules behind it are not
  -- asked, not even about the path that it leads to; what it leads to, if it
  -- starts with the configured prefix, then loses it, and is a single slash where the prefix is not
  -- empty and nothing else is left.
  pub first_rule_wins :
      (cfg : Config Regexp) (before after : List (Rule Regexp)) (rule : Rule Regexp)
      (path rest : Text)
      → cfg.rules ≡ before ++ (rule ∷ after)
      → Unmatched path before
      → matches rule.pattern path ≡ true
      → replace_all rule.pattern path rule.replacement ≡ cfg.strip_prefix ++ rest
      → new_path cfg path ≡ (
          if text_eq cfg.strip_prefix []
          then cfg.strip_prefix ++ rest
          else if text_eq rest []
          then slash
          else rest)
  unfolding new_path strip
  first_rule_wins cfg before after rule path rest listed u m led =
      rw
        (
          listed,
          apply_rules-first before after rule path u m,
          led,
          trim_prefix-append cfg.strip_prefix rest,
        )
        refl
