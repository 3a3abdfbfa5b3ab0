-- ===== src/Middleware/BasicAuth.antt =====
-- internal/middleware/basicauth.go. The decoding of base64 is a parameter.
use cascade_proxy.Common.{
  ◌≡◌, refl, Bool, false, List, [], ◌∷◌, ◌++◌, Option, none, some, ◌==◌, All, if◌then◌else◌, Text,
  ascii, text_eq, Option-cases, inl, inr, Dict, lookup, has_prefix, trim_prefix, has_prefix_iff,
  trim_prefix-append,
}
use cascade_proxy.Http.{Header, Handler, WriteOp, set_header, Request, get, http_error}

pub record Config : Type 0 where
  pub credentials : Dict Text
  pub realm : Text

abbrev pub default_config : Config
default_config = record { credentials = []; realm = ascii "Restricted" }

abbrev pub basic : Text
basic = ascii "Basic "

-- strings.SplitN(s, ":", 2), where it has two parts
unfoldable pub split_colon : Text → Option (Text × Text)
split_colon [] = none
split_colon (c ∷ s) =
    let rest = split_colon s in
    if c == b':'
    then some ([], s)
    else elim rest [ none ↦ none | some (user, pass) ↦ some (c ∷ user, pass) ]

split_payload : Option Text → Option (Text × Text)
split_payload none = none
split_payload (some payload) = split_colon payload

unfoldable pub validate_credentials : Dict Text → Text → Text → Bool
validate_credentials creds user pass = elim (lookup user creds) [
  | none ↦ false
  | some expected ↦ text_eq pass expected
]

passes : Config → Option (Text × Text) → Bool
unfolding validate_credentials
passes cfg none = false
passes cfg (some (user, pass)) = validate_credentials cfg.credentials user pass

abbrev pub challenge : Config → List WriteOp
challenge cfg =
    set_header (ascii "WWW-Authenticate") (ascii "Basic realm=\"" ++ (cfg.realm ++ ascii "\""))
    ∷ http_error (ascii "Unauthorized") 401

-- `decode` is base64.StdEncoding.DecodeString, without the text of its error.
module _ (decode : Text → Option Text) where
  unfoldable pub parse_basic_auth : Request → Option (Text × Text)
  unfolding split_payload
  parse_basic_auth r =
      let auth = get (ascii "Authorization") r.header in
      if has_prefix auth basic then split_payload (decode (trim_prefix auth basic)) else none

  -- The handler that NewBasicAuthMiddleware makes.
  unfoldable pub handle : {W : Type 0} → Config → Handler W → Handler W
  unfolding passes parse_basic_auth
  handle cfg next r h w = if passes cfg (parse_basic_auth r) then next r h w else (challenge cfg, w)

split_colon_lem :
    (user pass : Text)
    → All (λ c. (c == b':') ≡ false) user
    → split_colon (user ++ (b':' ∷ pass)) ≡ some (user, pass)
unfolding split_colon
split_colon_lem [] pass h = refl
split_colon_lem (c ∷ user) pass (plain, h) = rw (plain, split_colon_lem user pass h)

-- A request whose header carries the encoded name and password of a user is passed on exactly if
-- the user is known and has that password, and else answered with the challenge. The name holds no
-- colon; the password may. The decoding undoes the encoding of this pair.
pub sent_credentials_decide :
    {W : Type 0} (decode : Text → Option Text) (encode : Text → Text) (cfg : Config)
    (next : Handler W) (r : Request) (h : Header) (w : W) (user pass : Text)
    → decode (encode (user ++ (b':' ∷ pass))) ≡ some (user ++ (b':' ∷ pass))
    → All (λ c. (c == b':') ≡ false) user
    → get (ascii "Authorization") r.header ≡ basic ++ encode (user ++ (b':' ∷ pass))
    → handle decode cfg next r h w ≡ (elim (lookup user cfg.credentials) [
      | none ↦ (challenge cfg, w)
      | some expected ↦ if text_eq pass expected then next r h w else (challenge cfg, w)
    ])
unfolding handle parse_basic_auth passes validate_credentials
sent_credentials_decide decode encode cfg next r h w user pass undone plain sent =
    let token = encode (user ++ (b':' ∷ pass)) in
    rw
      (
        sent,
        (has_prefix_iff (basic ++ token) basic).1 (token, refl),
        trim_prefix-append basic token,
        undone,
        split_colon_lem user pass plain,
      )
      (elim (Option-cases (lookup user cfg.credentials)) [
        | inl unknown ↦ rw (unknown, validate_credentials) refl
        | inr (expected, known) ↦ rw (known, validate_credentials) refl
      ])
