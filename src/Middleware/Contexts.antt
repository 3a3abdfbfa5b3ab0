-- ===== src/Middleware/Contexts.antt =====
-- The contexts of requests, in internal/middleware/tracing.go, requestid.go and jwt.go: what a
-- middleware stores in `r.Context()` for the handlers behind it, and how they read it. A context is
-- the list of its pairs, the innermost first. Keys are compared with their types: `contextKey` is a
-- type of strings, the others are structs without fields. Deadlines of contexts are left out.
pub mod Stack
pub mod Typed
use cascade_proxy.Common.{
  ◌≡◌, refl, Bool, true, false, Option, none, some, List, [], ◌∷◌, if◌then◌else◌, Text, ascii,
  text_eq,
}
use cascade_proxy.Http.{Handler}

pub data Key : Type 0 where
  context_key : Text → Key
  request_id_key : Key
  jwt_context_key : Key

-- `k == l` on keys of type `any`
unfoldable pub key_eq : Key → Key → Bool
key_eq (context_key s) (context_key t) = text_eq s t
key_eq request_id_key request_id_key = true
key_eq jwt_context_key jwt_context_key = true
key_eq _ _ = false

-- A value of type `any`: the middlewares store strings, and the claims of a token.
pub data Value (C : Type 0) : Type 0 where
  text_value : Text → Value C
  claims_value : C → Value C

abbrev pub Context : Type 0 → Type 0
Context C = List (Key × Value C)

abbrev pub trace_id_key : Key
trace_id_key = context_key (ascii "trace_id")

module _ {C : Type 0} where
  -- context.WithValue(ctx, key, value)
  abbrev pub with_value : Key → Value C → Context C → Context C
  with_value key v ctx = (key, v) ∷ ctx

  -- ctx.Value(key); `none` is nil
  unfoldable pub value : Key → Context C → Option (Value C)
  unfolding key_eq
  value key [] = none
  value key (entry ∷ ctx) = if key_eq entry.0 key then some entry.1 else value key ctx

  -- v, _ := x.(string)
  abbrev pub as_text : Option (Value C) → Text
  as_text (some (text_value t)) = t
  as_text _ = []

  -- v, _ := x.(JWTClaims)
  abbrev pub as_claims : Option (Value C) → Option C
  as_claims (some (claims_value c)) = some c
  as_claims _ = none

  unfoldable pub trace_id_from_context : Context C → Text
  unfolding value
  trace_id_from_context ctx = as_text (value trace_id_key ctx)

  unfoldable pub request_id_from_context : Context C → Text
  unfolding value
  request_id_from_context ctx = as_text (value request_id_key ctx)

  unfoldable pub jwt_claims_from_context : Context C → Option C
  unfolding value
  jwt_claims_from_context ctx = as_claims (value jwt_context_key ctx)

-- A handler of requests with a context.
abbrev pub InContext : Type 0 → Type 0 → Type 0
InContext C W = Context C → Handler W
