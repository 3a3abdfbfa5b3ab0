-- ===== src/Middleware/Jwt.antt =====
-- internal/middleware/jwt.go. Parameters: the signature hmacSHA256B64 of jwt_helpers.go, which is
-- HMAC and base64 of the library, the decoding of base64, json.Unmarshal with the numbers of the
-- claims, in seconds and not negative, and the clock. The log lines are left out.
pub mod Signed
pub mod Build
use cascade_proxy.Common.{
  ℕ, ◌≡◌, Bool, true, false, not, ◌&&◌, ◌||◌, List, [], ◌∷◌, ◌++◌, Option, none, some, ltb, ◌==◌,
  if◌then◌else◌, Text, ascii, text_eq, has_prefix, trim_prefix, split, Result, ok, err, ◌>>=◌,
}
use cascade_proxy.Middleware.Contexts.{
  Context, InContext, with_value, jwt_context_key, claims_value,
}
use cascade_proxy.Http.{Header, Handler, WriteOp, Request, get, http_error}

pub record Config : Type 0 where
  pub secret : Text
  pub header : Text
  pub scheme : Text
  pub claims_context : Bool

abbrev pub default_config : Text → Config
default_config secret = record {
  secret = secret;
  header = ascii "Authorization";
  scheme = ascii "Bearer";
  claims_context = true;
}

abbrev pub dot : ℕ
dot = b'.'

abbrev pub unauthorized : Text → List WriteOp
unauthorized why = http_error (ascii "unauthorized: " ++ why) 401

-- the claim is a number, and `late` of it holds
abbrev pub holds : (ℕ → Bool) → Option ℕ → Bool
holds late none = false
holds late (some t) = late t

-- The token behind the scheme, if the scheme is there.
unfoldable pub strip_scheme : Text → Text → Option Text
strip_scheme scheme raw =
    if text_eq scheme []
    then some raw
    else let prefix = scheme ++ (b' ' ∷ []) in
      if has_prefix raw prefix then some (trim_prefix raw prefix) else none

-- The context of the handlers behind a token with these claims.
abbrev pub with_claims : {Claims : Type 0} → Config → Claims → Context Claims → Context Claims
with_claims cfg found ctx =
    if cfg.claims_context then with_value jwt_context_key (claims_value found) ctx else ctx

module _ {Claims : Type 0} (sign : Text → Text → Text) (decode : Text → Option Text)
    (unmarshal : Text → Option Claims) (number : Text → Claims → Option ℕ) where
  unfoldable pub check_times : ℕ → Claims → Result Text Claims
  check_times now claims =
      if holds (λ exp. ltb exp now) (number (ascii "exp") claims)
      then err (ascii "token expired")
      else if holds (λ nbf. ltb now nbf) (number (ascii "nbf") claims)
      then err (ascii "token not yet valid")
      else ok claims

  unfoldable pub read_claims : ℕ → Option Text → Result Text Claims
  unfolding check_times
  read_claims now none = err (ascii "malformed payload")
  read_claims now (some payload) = elim (unmarshal payload) [
    | none ↦ err (ascii "invalid payload JSON")
    | some claims ↦ check_times now claims
  ]

  unfoldable pub check_parts : Text → ℕ → List Text → Result Text Claims
  unfolding read_claims
  check_parts secret now (head ∷ payload ∷ signature ∷ []) =
      if text_eq (sign (head ++ (dot ∷ payload)) secret) signature
      then read_claims now (decode payload)
      else err (ascii "invalid signature")
  check_parts secret now _ = err (ascii "malformed token")

  unfoldable pub parse_jwt : ℕ → Text → Text → Result Text Claims
  unfolding check_parts split
  parse_jwt now token secret = check_parts secret now (split dot token)

  -- The handler that NewJWTMiddleware makes.
  module _ {W : Type 0} (now : W → ℕ) where
    unfoldable pub pass_on : Config → InContext Claims W → Result Text Claims → InContext Claims W
    pass_on cfg next (err why) ctx r h w = (unauthorized why, w)
    pass_on cfg next (ok found) ctx r h w = next (with_claims cfg found ctx) r h w

    unfoldable pub with_token : Config → InContext Claims W → Option Text → InContext Claims W
    unfolding pass_on parse_jwt
    with_token cfg next none ctx r h w = (unauthorized (ascii "invalid scheme"), w)
    with_token cfg next (some token) ctx r h w =
        pass_on cfg next (parse_jwt (now w) token cfg.secret) ctx r h w

    unfoldable pub handle : Config → InContext Claims W → InContext Claims W
    unfolding with_token strip_scheme
    handle cfg next ctx r h w =
        let raw = get cfg.header r.header in
        if text_eq raw []
        then (unauthorized (ascii "missing token"), w)
        else with_token cfg next (strip_scheme cfg.scheme raw) ctx r h w
