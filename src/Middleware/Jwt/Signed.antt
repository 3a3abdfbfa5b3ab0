-- ===== src/Middleware/Jwt/Signed.antt =====
-- Which tokens are accepted.
use cascade_proxy.Common.{
  ℕ, ◌≡◌, refl, sym, ap, ◌∙◌, false, List, [], ◌∷◌, ◌++◌, Option, none, some, ltb, Text, ascii,
  text_eq, text_eq_iff, ok, Bool-cases, Option-cases, inl, inr, subst,
}
use cascade_proxy.Common.{split, join, join-split}
use cascade_proxy.Middleware.Jwt.{dot, holds, check_times, read_claims, check_parts, parse_jwt}

module _ {Claims : Type 0} (sign : Text → Text → Text) (decode : Text → Option Text)
    (unmarshal : Text → Option Claims) (number : Text → Claims → Option ℕ) where
  -- A token of three parts, signed with the secret, whose claims are these.
  pub record IsSigned (secret token : Text) (claims : Claims) : Type 0 where
    pub head : Text
    pub payload : Text
    pub bytes : Text
    pub parts : token ≡ head ++ (dot ∷ (payload ++ (dot ∷ sign (head ++ (dot ∷ payload)) secret)))
    pub decoded : decode payload ≡ some bytes
    pub parsed : unmarshal bytes ≡ some claims

  -- The times that the claims name, if they name any, are not over and have come.
  abbrev pub InTime : ℕ → Claims → Type 0
  InTime now claims =
      (holds (λ exp. ltb exp now) (number (ascii "exp") claims) ≡ false)
      × (holds (λ nbf. ltb now nbf) (number (ascii "nbf") claims) ≡ false)

  check_times-InTime :
      (now : ℕ) (claims found : Claims)
      → check_times sign decode unmarshal number now claims ≡ ok found
      → (claims ≡ found) × InTime now found
  unfolding check_times
  check_times-InTime now claims found e =
      let exp = holds (λ exp. ltb exp now) (number (ascii "exp") claims) in
      elim (Bool-cases exp) [
        | inl over ↦ cc (rw over at e)
        | inr lasts ↦ elim (Bool-cases (holds (λ nbf. ltb now nbf) (number (ascii "nbf") claims))) [
          | inl early ↦ cc (rw (lasts, early) at e)
          | inr come ↦
              let same : claims ≡ found = cc (rw (lasts, come) at e) in
              (same, subst (InTime now) same (lasts, come))
        ]
      ]

  read_claims-ok :
      (now : ℕ) (o : Option Text) (found : Claims)
      → read_claims sign decode unmarshal number now o ≡ ok found
      → (bytes : Text) × (o ≡ some bytes) × (unmarshal bytes ≡ some found) × InTime now found
  unfolding read_claims
  read_claims-ok now none found e = cc
  read_claims-ok now (some bytes) found e = elim (Option-cases (unmarshal bytes)) [
    | inl bad ↦ cc (rw (bad, read_claims) at e)
    | inr (claims, good) ↦
        let (same, times) = check_times-InTime now claims found (rw (good, read_claims) at e) in
        (bytes, refl, good ∙ ap some same, times)
  ]

  check_parts-ok :
      (secret token : Text) (now : ℕ) (parts : List Text) (found : Claims)
      → join dot parts ≡ token
      → check_parts sign decode unmarshal number secret now parts ≡ ok found
      → IsSigned secret token found × InTime now found
  unfolding check_parts
  check_parts-ok secret token now [] found j e = cc
  check_parts-ok secret token now (a ∷ []) found j e = cc
  check_parts-ok secret token now (a ∷ b ∷ []) found j e = cc
  check_parts-ok secret token now (a ∷ b ∷ c ∷ d ∷ more) found j e = cc
  check_parts-ok secret token now (a ∷ b ∷ c ∷ []) found j e =
      elim (Bool-cases (text_eq (sign (a ++ (dot ∷ b)) secret) c)) [
        | inr forged ↦ cc (rw (forged, check_parts) at e)
        | inl true_ ↦
            let (bytes, decoded, parsed, times) =
              read_claims-ok now (decode b) found (rw (true_, check_parts) at e) in
            let signed = (text_eq_iff (sign (a ++ (dot ∷ b)) secret) c).0 true_ in
            (
              record {
                head = a;
                payload = b;
                bytes = bytes;
                parts = sym j ∙ ap (λ s. a ++ (dot ∷ (b ++ (dot ∷ s)))) (sym signed);
                decoded = decoded;
                parsed = parsed;
              },
              times,
            )
      ]

  -- A token that is accepted consists of three parts with dots between them, of which the third is
  -- the signature of the first two under the secret and the second decodes to the claims, and the
  -- claims are neither expired nor not yet valid.
  pub accepted_IsSigned :
      (now : ℕ) (token secret : Text) (claims : Claims)
      → parse_jwt sign decode unmarshal number now token secret ≡ ok claims
      → IsSigned secret token claims × InTime now claims
  unfolding parse_jwt
  accepted_IsSigned now token secret claims e =
      check_parts-ok secret token now (split dot token) claims (join-split dot token) e
