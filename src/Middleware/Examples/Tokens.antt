-- ===== src/Middleware/Examples/Tokens.antt =====
-- Tokens that are built and read.
use cascade_proxy.Common.{
  ℕ, ◌+◌, ◌-◌, ◌≡◌, refl, ap, false, Option, none, some, [], ◌∷◌, ◌==◌, arith, if◌then◌else◌,
  text_eq, Text, ascii, All, Result, ok, ◌>>=◌,
}
use cascade_proxy.Middleware.Jwt.{parse_jwt, dot}
use cascade_proxy.Middleware.Jwt.Signed.{IsSigned, InTime, accepted_IsSigned}
use cascade_proxy.Middleware.Jwt.Build.{build_jwt, hmac_sha256_b64, parse-build_jwt}

-- A byte is coded by a number that is no dot.
abbrev encode : Text → Text
encode [] = []
encode (c ∷ s) = (c + 100) ∷ encode s

abbrev decode_bytes : Text → Text
decode_bytes [] = []
decode_bytes (c ∷ s) = (c - 100) ∷ decode_bytes s

abbrev decode : Text → Option Text
decode s = some (decode_bytes s)

decode-encode : (s : Text) → decode_bytes (encode s) ≡ s
decode-encode [] = refl
decode-encode (c ∷ s) =
    let one : (c + 100) - 100 ≡ c = omega arith in rw (one, decode-encode s) refl

encode_dotless : (s : Text) → All (λ c. (c == dot) ≡ false) (encode s)
encode_dotless [] = tt
encode_dotless (c ∷ s) = (ground arith, encode_dotless s)

-- A signature that is the secret. The claims are the bytes, and expire at 9.
abbrev hmac : Text → Text → Text
hmac message key = key

abbrev marshal : Text → Result Text Text
marshal claims = ok claims

abbrev unmarshal : Text → Option Text
unmarshal bytes = some bytes

abbrev number : Text → Text → Option ℕ
number name claims = if text_eq name (ascii "exp") then some 9 else none

abbrev subject : Text
subject = ascii "{\"sub\":\"ann\"}"

parse-build_jwt_example :
    (build_jwt hmac encode marshal subject (ascii "key") >>= (λ token.
      parse_jwt (hmac_sha256_b64 hmac encode) decode unmarshal number 5 token (ascii "key")))
    ≡ ok subject
unfolding text_eq ascii
parse-build_jwt_example =
    parse-build_jwt hmac encode decode marshal unmarshal number (λ s. ap some (decode-encode s))
      encode_dotless 5 subject subject (ascii "key") refl refl (refl, refl)

-- Of a token that is coded as it is: the signature is the secret, and the claims are the payload
-- and never expire.
abbrev plain : Text → Option Text
plain t = some t

abbrev no_number : Text → Text → Option ℕ
no_number name claims = none

accepted_IsSigned_example :
    IsSigned hmac plain plain no_number (ascii "k") (ascii "h.p.k") (ascii "p")
    × InTime hmac plain plain no_number 5 (ascii "p")
accepted_IsSigned_example =
    accepted_IsSigned hmac plain plain no_number 5 (ascii "h.p.k") (ascii "k") (ascii "p")
      (unfold parse_jwt ascii text_eq in refl)
