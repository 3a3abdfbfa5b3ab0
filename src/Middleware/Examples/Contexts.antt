-- ===== src/Middleware/Examples/Contexts.antt =====
-- Requests whose contexts are filled on the way.
use cascade_proxy.Common.{
  ℕ, ◌+◌, ◌-◌, ◌≡◌, refl, Option, none, some, List, [], ◌∷◌, ◌++◌, Text, ascii, text_eq, lookup,
  insert, or_else, has_prefix, trim_prefix, inl, inr, if◌then◌else◌,
}
use cascade_proxy.Http.{
  Request, WriteOp, Clock, set_header, write_header, write_body, get, set, response,
}
use cascade_proxy.Http.Canonical.{canonical}
use cascade_proxy.Middleware.Contexts.{
  Context, InContext, with_value, trace_id_key, text_value, trace_id_from_context,
  request_id_from_context, jwt_claims_from_context,
}
use cascade_proxy.Middleware.Contexts.{Value, jwt_context_key, request_id_key, value}
use cascade_proxy.Middleware.Contexts.Typed.{
  Alike, Has, Readable, Claimed, IsTyped-Readable, handlers_typed,
}
use cascade_proxy.Middleware.Contexts.Stack.{Guarded, handle-admits}
use cascade_proxy.Middleware.RequestId
use cascade_proxy.Middleware.RequestId.{id_of, tagged, request_id_header}
use cascade_proxy.Middleware.Jwt
use cascade_proxy.Middleware.Jwt.{Config, default_config, strip_scheme, parse_jwt}
use cascade_proxy.Middleware.Tracing
use cascade_proxy.Middleware.Tracing.{Line, trace_id_header}
use cascade_proxy.Middleware.Tracing.Traced.{handle-traced}

abbrev request : Request
request = record {
  method = ascii "GET";
  scheme = [];
  url_host = [];
  path = ascii "/users";
  raw_query = [];
  host = ascii "front";
  header = (ascii "Authorization", ascii "Bearer h.p.k" ∷ []) ∷ [];
  remote_addr = ascii "10.0.0.1:80";
  request_uri = ascii "/users";
  body = none;
}

-- The signature is the secret, and the claims are the payload, without times.
abbrev sign : Text → Text → Text
sign message key = key

abbrev plain : Text → Option Text
plain t = some t

abbrev no_number : Text → Text → Option ℕ
no_number name claims = none

-- The world counts the identifiers, and is the time.
abbrev new_id : ℕ → Text × ℕ
new_id w = (w ∷ [], w + 1)

abbrev clock : Clock ℕ
clock = record { now = λ w. w; sleep = λ d w. w + d }

abbrev traced : Context Text
traced = with_value trace_id_key (text_value (ascii "t")) []

-- A handler that says whose request this is.
abbrev who : InContext Text ℕ
who ctx r h w = (
  write_header 201
      ∷ write_body (request_id_from_context ctx ++ or_else (jwt_claims_from_context ctx) [])
      ∷ [],
  w + 3,
)

abbrev config : Config
config = default_config (ascii "k")

abbrev guarded : InContext Text ℕ
guarded = RequestId.handle new_id (Jwt.handle sign plain plain no_number (λ w. w) config who)

handle-admits_example :
    (inner : List WriteOp × ℕ) × ((guarded traced request [] 7).0
      ≡ set_header request_id_header (id_of request (7 ∷ [])) ∷ inner.0)
    × ((guarded traced request [] 7).1 ≡ inner.1)
    × Guarded sign plain plain no_number
        (λ w. w)
        config
        who
        (jwt_claims_from_context traced)
        (id_of request (7 ∷ []))
        (trace_id_from_context traced)
        (tagged (id_of request (7 ∷ [])) request)
        (set request_id_header (id_of request (7 ∷ [])) [])
        (if text_eq (get request_id_header request.header) [] then 8 else 7)
        inner
handle-admits_example =
    handle-admits sign plain plain no_number (λ w. w) new_id config who traced request [] 7

-- The run admits the request.
guarded_body : (response [] (guarded traced request [] 7).0).body ≡ 7 ∷ ascii "p"
unfolding RequestId.handle Jwt.handle strip_scheme parse_jwt response text_eq ascii lookup insert
    get set canonical request_id_from_context jwt_claims_from_context has_prefix trim_prefix
guarded_body = refl

abbrev run : List WriteOp × (List Line × ℕ)
run = Tracing.handle clock new_id who [] request [] ([], 7)

handle-traced_example :
    let id = Tracing.id_of request (7 ∷ []) in
    let behind : Context Text = with_value trace_id_key (text_value id) [] in
    let w1 : ℕ = if text_eq (get trace_id_header request.header) [] then 8 else 7 in
    let (ops, w2) = who behind request (set trace_id_header id []) w1 in
    let got = response [] run.0 in
    (◌≡◌ {A = Text} (trace_id_from_context behind) id)
    × (request_id_from_context behind ≡ request_id_from_context {C = Text} [])
    × (jwt_claims_from_context behind ≡ jwt_claims_from_context [])
    × (got ≡ response (set trace_id_header id []) ops)
    × (run.1.0
        ≡ record {
          trace_id = id;
          method = request.method;
          path = request.path;
          status = got.status;
          duration = w2 - w1;
        }
          ∷ [])
    × (run.1.1 ≡ w2)
handle-traced_example = handle-traced clock new_id who [] request [] [] 7 tt

-- The line has the status.
run_status : (response [] run.0).status ≡ 201
unfolding Tracing.handle response
run_status = refl

-- It does nothing where a string stands for the claims.
abbrev strict_on : Option (Value Text) → InContext Text ℕ
strict_on (some (text_value t)) ctx r h w = ([], w)
strict_on _ ctx r h w = who ctx r h w

abbrev strict : InContext Text ℕ
strict ctx r h w = strict_on (value jwt_context_key ctx) ctx r h w

strict-Alike : (P : Context Text → Type 0) → Alike P who strict
strict-Alike P ctx typed here r h w = elim (IsTyped-Readable ctx typed).2 [
  | inl none_ ↦ rw none_ refl
  | inr (c, found, _) ↦ rw found refl
]

handlers_typed_example :
    Readable traced
    × Alike (λ _. Unit) (RequestId.handle new_id who) (RequestId.handle new_id strict)
    × Alike (λ _. Unit) (Tracing.handle clock new_id who) (Tracing.handle clock new_id strict)
    × Alike
        (λ _. Unit)
        (Jwt.handle sign plain plain no_number (λ w. w) config who)
        (Jwt.handle sign plain plain no_number (λ w. w) config strict)
handlers_typed_example =
    handlers_typed sign plain plain no_number clock new_id config who strict traced
      (strict-Alike (Has request_id_key)) (strict-Alike (Has trace_id_key))
      (strict-Alike (Claimed sign plain plain no_number clock new_id config)) (tt, tt)
