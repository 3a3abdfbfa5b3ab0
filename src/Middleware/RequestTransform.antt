-- ===== src/Middleware/RequestTransform.antt =====
-- internal/middleware/reqtransform.go. What io.ReadAll makes of a body, an error being `none`, and
-- the length in bytes of the character at the front of a text are parameters. `ContentLength` is no
-- field of the model's requests, since the length of the new body is all that it says.
pub mod Pieces
pub mod Bodies
use cascade_proxy.Common.{
  ℕ, zero, suc, ◌-◌, Bool, true, false, not, ◌&&◌, ◌||◌, Option, none, some, List, [], ◌∷◌, ◌++◌,
  is_nil, length, if◌then◌else◌, Text, ascii, text_eq, has_prefix, contains,
}
use cascade_proxy.Http.{Header, Handler, Request, WriteOp, http_error, get}

pub record Rule : Type 0 where
  pub find : Text
  pub replace : Text
  pub content_type : Text

pub record Config : Type 0 where
  pub rules : List Rule

abbrev pub default_config : Config
default_config = record { rules = [] }

-- The leftmost places of a text that is not empty, one behind the other; `skip` bytes of the last
-- one are still to be passed.
unfoldable pub replace_from : ℕ → Text → Text → Text → Text
replace_from skip old new [] = []
replace_from (suc skip) old new (c ∷ s) = replace_from skip old new s
replace_from zero old new (c ∷ s) =
    let found = replace_from (length old - 1) old new s in
    let rest = replace_from zero old new s in
    if has_prefix (c ∷ s) old then new ++ found else c ∷ rest

module _ (char_len : Text → ℕ) where
  -- With nothing to find, the places are in front of each character and at the end.
  unfoldable pub replace_empty : ℕ → Text → Text → Text
  replace_empty skip new [] = new
  replace_empty (suc skip) new (c ∷ s) = c ∷ replace_empty skip new s
  replace_empty zero new (c ∷ s) = new ++ (c ∷ replace_empty (char_len (c ∷ s) - 1) new s)

  -- strings.ReplaceAll(s, old, new)
  unfoldable pub replace_all : Text → Text → Text → Text
  unfolding replace_from replace_empty
  replace_all s [] new = replace_empty zero new s
  replace_all s (c ∷ old) new = replace_from zero (c ∷ old) new s

  -- The loop over the rules.
  unfoldable pub transform : Text → List Rule → Text → Text
  transform ct [] modified = modified
  transform ct (rule ∷ rules) modified =
      if not (text_eq rule.content_type []) && not (contains ct rule.content_type)
      then transform ct rules modified
      else transform ct rules (replace_all modified rule.find rule.replace)

  module _ (read_all : Text → Option Text) {W : Type 0} where
    transform_body : Config → Handler W → Option Text → Handler W
    unfolding transform
    transform_body cfg next none r h w = (http_error (ascii "failed to read request body") 400, w)
    transform_body cfg next (some body) r h w =
        next
          (record r {
            body = some (transform (get (ascii "Content-Type") r.header) cfg.rules body);
          })
          h w

    with_body : Config → Handler W → Option Text → Handler W
    unfolding transform_body
    with_body cfg next none r h w = next r h w
    with_body cfg next (some b) r h w = transform_body cfg next (read_all b) r h w

    -- The handler that NewRequestTransformMiddleware makes.
    unfoldable pub handle : Config → Handler W → Handler W
    unfolding with_body
    handle cfg next r h w = if is_nil cfg.rules then next r h w else with_body cfg next r.body r h w
