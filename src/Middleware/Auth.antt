-- ===== src/Middleware/Auth.antt =====
-- internal/middleware/auth.go. The log lines are left out.
use cascade_proxy.Common.{
  ◌≡◌, ◌⊎◌, inl, inr, refl, false, List, [], ◌++◌, if◌then◌else◌, Text, ascii, text_eq, member,
  has_prefix, trim_prefix, has_prefix_iff, trim_prefix-append,
}
use cascade_proxy.Http.{Handler, WriteOp, Request, get, http_error}

pub record Config : Type 0 where
  pub valid_keys : List Text
  pub header : Text

abbrev pub authorization : Text
authorization = ascii "Authorization"

abbrev pub default_config : List Text → Config
default_config keys = record { valid_keys = keys; header = authorization }

abbrev pub bearer : Text
bearer = ascii "Bearer "

unfoldable pub extract_bearer : Text → Text
extract_bearer raw = if has_prefix raw bearer then trim_prefix raw bearer else raw

abbrev pub header_of : Config → Text
header_of cfg = if text_eq cfg.header [] then authorization else cfg.header

abbrev pub unauthorized : List WriteOp
unauthorized = http_error (ascii "Unauthorized") 401

-- The handler that NewAuthMiddleware makes.
unfoldable pub handle : {W : Type 0} → Config → Handler W → Handler W
unfolding extract_bearer
handle cfg next r h w =
    if member (extract_bearer (get (header_of cfg) r.header)) cfg.valid_keys
    then next r h w
    else (unauthorized, w)

-- The token that a text carries: what follows the word Bearer, or the whole text without that word.
abbrev pub Carries : Text → Text → Type 0
Carries raw key = (raw ≡ bearer ++ key) ⊎ ((has_prefix raw bearer ≡ false) × (raw ≡ key))

extract_bearer-Carries : (raw key : Text) → Carries raw key → extract_bearer raw ≡ key
unfolding extract_bearer
extract_bearer-Carries raw key (inl e) =
    rw e
      (rw ((has_prefix_iff (bearer ++ key) bearer).1 (key, refl)) (trim_prefix-append bearer key))
extract_bearer-Carries raw key (inr (none, e)) = rw none e

-- A request whose header carries a key is passed on, unchanged, if the key is one of the valid
-- ones; otherwise it is answered 401 and the next handler is not asked.
pub carried_key_decides :
    {W : Type 0} (cfg : Config) (next : Handler W) (r : Request) (h : List (Text × List Text))
    (w : W) (key : Text)
    → Carries (get (header_of cfg) r.header) key
    → handle cfg next r h w ≡ (if member key cfg.valid_keys then next r h w else (unauthorized, w))
unfolding handle
carried_key_decides cfg next r h w key c =
    rw (extract_bearer-Carries (get (header_of cfg) r.header) key c)
