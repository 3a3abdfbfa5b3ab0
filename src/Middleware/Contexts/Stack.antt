-- ===== src/Middleware/Contexts/Stack.antt =====
-- Identifiers and claims on their way through the middlewares of requestid.go and jwt.go.
use cascade_proxy.Common.{
  ℕ, ◌≡◌, ◌⊎◌, inl, inr, refl, Option, none, some, [], ◌∷◌, List, Text, text_eq, if◌then◌else◌,
  Bool-cases, Result-cases,
}
use cascade_proxy.Http.{Header, Request, WriteOp, set_header, get, set}
use cascade_proxy.Middleware.Contexts.{
  Context, InContext, trace_id_from_context, request_id_from_context, jwt_claims_from_context,
  with_value, request_id_key, text_value,
}
use cascade_proxy.Middleware.RequestId
use cascade_proxy.Middleware.RequestId.{id_of, tagged, request_id_header}
use cascade_proxy.Middleware.Jwt
use cascade_proxy.Middleware.Jwt.{
  Config, parse_jwt, strip_scheme, with_claims, unauthorized, pass_on, with_token,
}
use cascade_proxy.Middleware.Jwt.Signed.{IsSigned, InTime, accepted_IsSigned}

module _ {Claims : Type 0} (sign : Text → Text → Text) (decode : Text → Option Text)
    (unmarshal : Text → Option Claims) (number : Text → Claims → Option ℕ) {W : Type 0}
    (now : W → ℕ) where
  -- What `next` is called with: a context that has this identifier and this trace and, if the
  -- configuration stores claims, those of a token of the request, which is signed and in its time,
  -- and else the claims that were there before.
  pub record Admitted (cfg : Config) (next : InContext Claims W) (claims : Option Claims)
      (id trace : Text) (r : Request) (h : Header) (w : W) (out : List WriteOp × W) : Type 0 where
    pub behind : Context Claims
    pub token : Text
    pub found : Claims
    pub passed : out ≡ next behind r h w
    pub sent : strip_scheme cfg.scheme (get cfg.header r.header) ≡ some token
    pub signed : IsSigned sign decode unmarshal number cfg.secret token found
    pub in_time : InTime sign decode unmarshal number (now w) found
    pub stored :
        jwt_claims_from_context behind ≡ (if cfg.claims_context then some found else claims)
    pub named : request_id_from_context behind ≡ id
    pub traced : trace_id_from_context behind ≡ trace

  abbrev pub Guarded :
      Config
      → InContext Claims W
      → Option Claims
      → Text
      → Text
      → Request
      → Header
      → W
      → List WriteOp × W
      → Type 0
  Guarded cfg next claims id trace r h w out =
      ((why : Text) × (out ≡ (unauthorized why, w))) ⊎ Admitted cfg next claims id trace r h w out

  abbrev answered : Config → InContext Claims W → InContext Claims W
  answered cfg next = Jwt.handle sign decode unmarshal number now cfg next

  -- What is read of a context in which the claims are stored, if they are.
  with_claims-reads :
      (cfg : Config) (found : Claims) (ctx : Context Claims)
      → let behind = with_claims cfg found ctx in
        (jwt_claims_from_context behind
          ≡ (if cfg.claims_context then some found else jwt_claims_from_context ctx))
        × (request_id_from_context behind ≡ request_id_from_context ctx)
        × (trace_id_from_context behind ≡ trace_id_from_context ctx)
  unfolding jwt_claims_from_context request_id_from_context trace_id_from_context
  with_claims-reads cfg found ctx = elim (Bool-cases cfg.claims_context) [
    | inl stored ↦ rw stored (refl, refl, refl)
    | inr dropped ↦ rw dropped (refl, refl, refl)
  ]

  -- A request with this token behind the scheme.
  token-Guarded :
      (cfg : Config) (next : InContext Claims W) (ctx : Context Claims) (r : Request) (h : Header)
      (w : W) (o : Option Text)
      → strip_scheme cfg.scheme (get cfg.header r.header) ≡ o
      → Guarded cfg next
          (jwt_claims_from_context ctx)
          (request_id_from_context ctx)
          (trace_id_from_context ctx)
          r
          h
          w
          (with_token sign decode unmarshal number now cfg next o ctx r h w)
  unfolding with_token pass_on
  token-Guarded cfg next ctx r h w none sent = inl (_, refl)
  token-Guarded cfg next ctx r h w (some token) sent =
      elim (Result-cases (parse_jwt sign decode unmarshal number (now w) token cfg.secret)) [
        | inl (found, e) ↦
            let (signed, timely) =
              accepted_IsSigned sign decode unmarshal number (now w) token cfg.secret found e in
            let behind = with_claims cfg found ctx in
            let kept = with_claims-reads cfg found ctx in
            rw e (
              inr (record {
                behind = behind;
                token = token;
                found = found;
                passed = refl;
                sent = sent;
                signed = signed;
                in_time = timely;
                stored = kept.0;
                named = kept.1;
                traced = kept.2;
              }))
        | inr (why, e) ↦ rw e (inl (why, refl))
      ]

  handle-Guarded :
      (cfg : Config) (next : InContext Claims W) (ctx : Context Claims) (r : Request) (h : Header)
      (w : W)
      → Guarded cfg next
          (jwt_claims_from_context ctx)
          (request_id_from_context ctx)
          (trace_id_from_context ctx)
          r
          h
          w
          (Jwt.handle sign decode unmarshal number now cfg next ctx r h w)
  unfolding Jwt.handle
  handle-Guarded cfg next ctx r h w = elim (Bool-cases (text_eq (get cfg.header r.header) [])) [
    | inl missing ↦ rw missing (inl (_, refl))
    | inr present ↦
        rw present (
          token-Guarded cfg next ctx r h w (strip_scheme cfg.scheme (get cfg.header r.header)) refl)
  ]

  -- What reaches a handler that stands behind the middlewares of requestid.go and jwt.go: either it
  -- is not called, and the request is refused, or the request names a token that is signed with the
  -- secret and in its time, and the handler is called with a context that has the identifier of the
  -- request, the trace of the context before, and the claims of the token if ClaimsContext is set,
  -- and else those of the context before.
  pub handle-admits :
      (new_id : W → Text × W) (cfg : Config) (next : InContext Claims W) (ctx : Context Claims)
      (r : Request) (h : Header) (w : W)
      → let (out, w') =
          RequestId.handle new_id
            (Jwt.handle sign decode unmarshal number now cfg next)
            ctx
            r
            h
            w in
        let (fresh, w0) = new_id w in
        let id = id_of r fresh in
        let w1 = if text_eq (get request_id_header r.header) [] then w0 else w in
        (inner : List WriteOp × W) × (out ≡ set_header request_id_header id ∷ inner.0)
        × (w' ≡ inner.1)
        × Guarded cfg next
            (jwt_claims_from_context ctx)
            id
            (trace_id_from_context ctx)
            (tagged id r)
            (set request_id_header id h)
            w1
            inner
  unfolding RequestId.handle request_id_from_context trace_id_from_context jwt_claims_from_context
  handle-admits new_id cfg next ctx r h w =
      let (fresh, w0) = new_id w in
      let id = id_of r fresh in
      let w1 = if text_eq (get request_id_header r.header) [] then w0 else w in
      (
        _,
        refl,
        refl,
        handle-Guarded cfg next (with_value request_id_key (text_value id) ctx) (tagged id r)
            (set request_id_header id h) w1,
      )
