-- ===== src/Middleware/Jwt/Build.antt =====
-- internal/middleware/jwt_helpers.go, and the way of a token from buildJWT to parseJWT. Parameters:
-- the HMAC, the coding of base64 and json.Marshal. The function jsonMarshal, which the repository
-- does not define, is taken to be the latter.
use cascade_proxy.Common.{
  ℕ, ◌≡◌, refl, ap, ◌∙◌, false, [], ◌∷◌, ◌++◌, Option, some, ◌==◌, Text, ascii, text_eq_refl,
  append_assoc, split, split_first, split_last, Result, ok, ◌>>=◌, All,
}
use cascade_proxy.Middleware.Jwt.{dot, check_times, read_claims, check_parts, parse_jwt}
use cascade_proxy.Middleware.Jwt.Signed.{InTime}

-- `hmac message key` and the coding of base64
unfoldable pub hmac_sha256_b64 : (Text → Text → Text) → (Text → Text) → Text → Text → Text
hmac_sha256_b64 hmac encode message key = encode (hmac message key)

abbrev pub header_json : Text
header_json = ascii "{\"alg\":\"HS256\",\"typ\":\"JWT\"}"

unfoldable pub build_jwt :
    {Claims : Type 0}
    → (Text → Text → Text)
    → (Text → Text)
    → (Claims → Result Text Text)
    → Claims
    → Text
    → Result Text Text
unfolding hmac_sha256_b64
build_jwt hmac encode marshal payload secret = do
  json ← marshal payload
  let sig_input : Text = encode header_json ++ (dot ∷ encode json)
  ok (sig_input ++ (dot ∷ hmac_sha256_b64 hmac encode sig_input secret))

module _ {Claims : Type 0} (hmac : Text → Text → Text) (encode : Text → Text)
    (decode : Text → Option Text) (marshal : Claims → Result Text Text)
    (unmarshal : Text → Option Claims) (number : Text → Claims → Option ℕ) where
  abbrev sign : Text → Text → Text
  sign = hmac_sha256_b64 hmac encode

  check_times-ok :
      (now : ℕ) (claims : Claims)
      → InTime sign decode unmarshal number now claims
      → check_times sign decode unmarshal number now claims ≡ ok claims
  unfolding check_times
  check_times-ok now claims (lasts, come) = rw (lasts, come) refl

  -- Where decoding and json.Unmarshal undo the encoding and json.Marshal, and no encoding has a dot
  -- in it, a token built of claims is accepted under the same secret, with just these claims, at
  -- every time at which they are neither expired nor not yet valid.
  pub parse-build_jwt :
      ((bytes : Text) → decode (encode bytes) ≡ some bytes)
      → ((bytes : Text) → All (λ c. (c == dot) ≡ false) (encode bytes))
      → (now : ℕ) (claims : Claims) (json secret : Text) → marshal claims ≡ ok json
      → unmarshal json ≡ some claims
      → InTime sign decode unmarshal number now claims
      → (build_jwt hmac encode marshal claims secret
          >>= (λ token. parse_jwt sign decode unmarshal number now token secret))
        ≡ ok claims
  unfolding build_jwt parse_jwt check_parts read_claims
  parse-build_jwt decodes dotless now claims json secret written read times =
      let head = encode header_json in
      let body = encode json in
      let sig : Text = hmac_sha256_b64 hmac encode (head ++ (dot ∷ body)) secret in
      let parts : split dot ((head ++ (dot ∷ body)) ++ (dot ∷ sig)) ≡ head ∷ body ∷ sig ∷ [] =
        ap (split dot) (append_assoc head (dot ∷ body) (dot ∷ sig))
        ∙ split_first dot head (body ++ (dot ∷ sig)) (dotless header_json)
        ∙ ap (◌∷◌ head) (
            split_first dot body sig (dotless json)
            ∙ ap (◌∷◌ body) (split_last dot sig (dotless (hmac (head ++ (dot ∷ body)) secret)))) in
      rw (written, parts, text_eq_refl sig, decodes json, read_claims, read)
        (check_times-ok now claims times)
