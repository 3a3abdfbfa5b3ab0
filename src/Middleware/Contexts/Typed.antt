-- ===== src/Middleware/Contexts/Typed.antt =====
-- The types of the values in a context: the middlewares store under each key a value of the type
-- that its reader asserts.
use cascade_proxy.Common.{
  ℕ, ◌≡◌, ◌⊎◌, inl, inr, refl, ap, true, Option, none, some, [], ◌∷◌, Text, ascii, text_eq,
  text_eq_refl, if◌then◌else◌, All, Bool-cases, Result-cases,
}
use cascade_proxy.Http.{Header, Request, Clock, get, set}
use cascade_proxy.Middleware.Contexts.{
  Key, context_key, request_id_key, jwt_context_key, key_eq, Value, text_value, claims_value,
  Context, InContext, value, with_value, trace_id_key, as_text, as_claims, trace_id_from_context,
  request_id_from_context, jwt_claims_from_context,
}
use cascade_proxy.Middleware.RequestId
use cascade_proxy.Middleware.Tracing
use cascade_proxy.Middleware.Tracing.{Line}
use cascade_proxy.Middleware.Jwt
use cascade_proxy.Middleware.Jwt.{Config, parse_jwt, strip_scheme, with_claims, pass_on, with_token}

-- Claims stand under the key of the claims, and strings under the others.
abbrev pub Fits : {C : Type 0} → Key → Value C → Type 0
Fits jwt_context_key (text_value t) = ⊥
Fits jwt_context_key (claims_value c) = Unit
Fits (context_key s) (text_value t) = Unit
Fits (context_key s) (claims_value c) = ⊥
Fits request_id_key (text_value t) = Unit
Fits request_id_key (claims_value c) = ⊥

abbrev pub IsTyped : {C : Type 0} → Context C → Type 0
IsTyped ctx = All (λ entry. Fits entry.0 entry.1) ctx

-- No value is read as missing because of its type.
abbrev pub Readable : {C : Type 0} → Context C → Type 0
Readable ctx =
    ((value trace_id_key ctx ≡ none)
      ⊎ (value trace_id_key ctx ≡ some (text_value (trace_id_from_context ctx))))
    × ((value request_id_key ctx ≡ none)
        ⊎ (value request_id_key ctx ≡ some (text_value (request_id_from_context ctx))))
    × ((value jwt_context_key ctx ≡ none)
        ⊎ ((c : _) × (value jwt_context_key ctx ≡ some (claims_value c))
            × (jwt_claims_from_context ctx ≡ some c)))

module _ {C : Type 0} where
  read_text :
      (key : Key) (ctx : Context C)
      → ((k : Key) (v : Value C) → key_eq k key ≡ true → Fits k v → (t : Text) × (v ≡ text_value t))
      → IsTyped ctx
      → (value key ctx ≡ none) ⊎ (value key ctx ≡ some (text_value (as_text (value key ctx))))
  unfolding value
  read_text key [] fits typed = inl refl
  read_text key ((k, v) ∷ ctx) fits (one, typed) = elim (Bool-cases (key_eq k key)) [
    | inl same ↦ let (t, e) = fits k v same one in rw (same, e) (inr refl)
    | inr other ↦ rw other (read_text key ctx fits typed)
  ]

  trace_id_key-Fits :
      (k : Key) (v : Value C)
      → key_eq k trace_id_key ≡ true
      → Fits k v
      → (t : Text) × (v ≡ text_value t)
  unfolding key_eq
  trace_id_key-Fits (context_key s) (text_value t) same fits = (t, refl)
  trace_id_key-Fits (context_key s) (claims_value c) same fits = elim fits [ ]
  trace_id_key-Fits request_id_key v same fits = cc
  trace_id_key-Fits jwt_context_key v same fits = cc

  request_id_key-Fits :
      (k : Key) (v : Value C)
      → key_eq k request_id_key ≡ true
      → Fits k v
      → (t : Text) × (v ≡ text_value t)
  unfolding key_eq
  request_id_key-Fits request_id_key (text_value t) same fits = (t, refl)
  request_id_key-Fits request_id_key (claims_value c) same fits = elim fits [ ]
  request_id_key-Fits (context_key s) v same fits = cc
  request_id_key-Fits jwt_context_key v same fits = cc

  read_claims :
      (ctx : Context C)
      → IsTyped ctx
      → (value jwt_context_key ctx ≡ none)
        ⊎ ((c : C) × (value jwt_context_key ctx ≡ some (claims_value c)))
  unfolding value key_eq
  read_claims [] typed = inl refl
  read_claims ((jwt_context_key, claims_value c) ∷ ctx) (one, typed) = inr (c, refl)
  read_claims ((jwt_context_key, text_value t) ∷ ctx) (one, typed) = elim one [ ]
  read_claims ((context_key s, v) ∷ ctx) (one, typed) = read_claims ctx typed
  read_claims ((request_id_key, v) ∷ ctx) (one, typed) = read_claims ctx typed

  pub IsTyped-Readable : (ctx : Context C) → IsTyped ctx → Readable ctx
  unfolding trace_id_from_context request_id_from_context jwt_claims_from_context
  IsTyped-Readable ctx typed = (
    read_text trace_id_key ctx trace_id_key-Fits typed,
    read_text request_id_key ctx request_id_key-Fits typed,
    elim (read_claims ctx typed) [
      | inl none_ ↦ inl none_
      | inr (c, found) ↦ inr (c, found, ap as_claims found)
    ],
  )

  -- A value of the type that is read stands under the key.
  abbrev pub Has : Key → Context C → Type 0
  Has key ctx = (v : Value C) × (value key ctx ≡ some v) × Fits key v

  -- The handlers cannot be told apart by a request that finds a typed context like this.
  abbrev pub Alike : {W : Type 0} → (Context C → Type 0) → InContext C W → InContext C W → Type 0
  Alike {W} P next next2 =
      (ctx : Context C)
      → IsTyped ctx
      → P ctx
      → (r : Request) (h : Header) (w : W) → next ctx r h w ≡ next2 ctx r h w

module _ {Claims : Type 0} (sign : Text → Text → Text) (decode : Text → Option Text)
    (unmarshal : Text → Option Claims) (number : Text → Claims → Option ℕ) {W : Type 0}
    (clock : Clock W) (new_id : W → Text × W) (cfg : Config) where
  -- What stands behind jwt.go: claims, if they are stored.
  abbrev pub Claimed : Context Claims → Type 0
  Claimed ctx = if cfg.claims_context then Has jwt_context_key ctx else Unit

  with_claims-Claimed :
      (found : Claims) (ctx : Context Claims)
      → IsTyped ctx
      → IsTyped (with_claims cfg found ctx) × Claimed (with_claims cfg found ctx)
  unfolding value key_eq
  with_claims-Claimed found ctx typed = elim (Bool-cases cfg.claims_context) [
    | inl stored ↦ rw stored ((tt, typed), (claims_value found, refl, tt))
    | inr dropped ↦ rw dropped (typed, tt)
  ]

  token-Alike :
      (next next2 : InContext Claims W)
      → Alike Claimed next next2
      → (ctx : Context Claims) → IsTyped ctx
      → (o : Option Text) (r : Request) (h : Header) (w : W)
      → with_token sign decode unmarshal number clock.now cfg next o ctx r h w
        ≡ with_token sign decode unmarshal number clock.now cfg next2 o ctx r h w
  unfolding with_token pass_on
  token-Alike next next2 alike ctx typed none r h w = refl
  token-Alike next next2 alike ctx typed (some token) r h w =
      elim (Result-cases (parse_jwt sign decode unmarshal number (clock.now w) token cfg.secret)) [
        | inr (why, e) ↦ rw e refl
        | inl (found, e) ↦
            let (typed', claimed) = with_claims-Claimed found ctx typed in
            rw e (alike (with_claims cfg found ctx) typed' claimed r h w)
      ]

  -- In a typed context no reader takes a value for missing because it has another type than it
  -- asserts. And in a request that comes with a typed context, as with the empty one, a handler
  -- behind a middleware that stores values finds a typed context again, in which the value of this
  -- middleware stands under its key: behind requestid.go an identifier, behind tracing.go a trace,
  -- and behind jwt.go claims, if ClaimsContext is set. What the handler does in other contexts
  -- makes no difference.
  pub handlers_typed :
      (next next2 : InContext Claims W) (ctx : Context Claims)
      → Alike (Has request_id_key) next next2
      → Alike (Has trace_id_key) next next2
      → Alike Claimed next next2
      → IsTyped ctx
      → Readable ctx
        × Alike (λ _. Unit) (RequestId.handle new_id next) (RequestId.handle new_id next2)
        × Alike (λ _. Unit) (Tracing.handle clock new_id next) (Tracing.handle clock new_id next2)
        × Alike
            (λ _. Unit)
            (Jwt.handle sign decode unmarshal number clock.now cfg next)
            (Jwt.handle sign decode unmarshal number clock.now cfg next2)
  unfolding RequestId.handle Tracing.handle Jwt.handle value key_eq
  handlers_typed next next2 here named traced claimed typed_here = (
    IsTyped-Readable here typed_here,
    λ ctx typed _ r h w.
        let (fresh, w0) = new_id w in
        let id = RequestId.id_of r fresh in
        let behind = with_value request_id_key (text_value id) ctx in
        let w1 = if text_eq (get RequestId.request_id_header r.header) [] then w0 else w in
        let same =
          named behind (tt, typed) (text_value id, refl, tt) (RequestId.tagged id r)
            (set RequestId.request_id_header id h) w1 in
        rw same refl,
    λ ctx typed _ r h (log, w).
        let (fresh, w0) = new_id w in
        let id = Tracing.id_of r fresh in
        let behind = with_value trace_id_key (text_value id) ctx in
        let w1 = if text_eq (get Tracing.trace_id_header r.header) [] then w0 else w in
        let same =
          traced behind (tt, typed) (text_value id, (rw (text_eq_refl (ascii "trace_id")) refl), tt)
            r (set Tracing.trace_id_header id h) w1 in
        rw same refl,
    λ ctx typed _ r h w. elim (Bool-cases (text_eq (get cfg.header r.header) [])) [
      | inl missing ↦ rw missing refl
      | inr present ↦ rw present (
          token-Alike next next2 claimed ctx typed
            (strip_scheme cfg.scheme (get cfg.header r.header)) r h w)
    ],
  )
