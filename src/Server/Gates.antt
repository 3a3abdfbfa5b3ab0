-- ===== src/Server/Gates.antt =====
-- Which of the stack's handlers answers a request, from the key of the API to the upstream, and
-- what it then changes: a specification on responses, without writers and recorders.
pub mod Writes
pub mod Served
pub mod Kept
use cascade_proxy.Server.Gates.Writes.{
  append-IsRealOp, hit_ops-IsRealOp, response-heads, heads-IsRealOp,
}
use cascade_proxy.Common.{
  ℕ, ◌≡◌, ◌≢◌, refl, sym, ap, ◌∙◌, Bool, true, false, not, Option, none, some, List, [], ◌∷◌, ◌++◌,
  arith, ltb, if◌then◌else◌, Text, ascii, text_eq, member, All, Bool-cases, Option-cases, inl, inr,
}
use cascade_proxy.Http.{
  Header, Handler, Request, WriteOp, Clock, Response, response, get, header_after, write_header,
  add_ops, header_ops, start, finish, apply_all, set_header, add_header, del_header, write_body,
}
use cascade_proxy.Http.Heads.{IsHeaderOp, apply-heads}
use cascade_proxy.CircuitBreaker.{Breaker, admit, settle}
use cascade_proxy.RateLimiter.{RateLimiter, allow}
use cascade_proxy.Middleware.Auth
use cascade_proxy.Middleware.Breaker.{rejection, wrap, wrap_lem, wrap-IsRealOp}
use cascade_proxy.Middleware.Cache
use cascade_proxy.Middleware.Cache.Ok.{AreOk, get-AreOk, handle-AreOk}
use cascade_proxy.Middleware.Cache.{Entry, ResponseCache, hit_ops, method_get}
use cascade_proxy.Middleware.Cors
use cascade_proxy.Middleware.RateLimit
use cascade_proxy.Middleware.RateLimit.{client_key, too_many}
use cascade_proxy.Middleware.Recorder.Laws.{IsRealOp, record_ops-transparent, apply_all-append}
use cascade_proxy.Middleware.Recorder.Orderly.{http_error-IsRealOp, record_ops-IsRealOp}
use cascade_proxy.Middleware.Recorder
use cascade_proxy.Middleware.Recorder.{record_ops}
use cascade_proxy.Server.{behind, limited, cached, authorized, Inner}

-- Who answers.
pub data Verdict : Type 0 where
  unauthorized preflight too_fast broken passed : Verdict
  hit : Entry → Verdict

-- The calls on the header that are made for a request before the cache is asked.
abbrev pub cors_ops : Request → List WriteOp
cors_ops r =
    let origin = get (ascii "Origin") r.header in
    if text_eq origin []
    then []
    else Cors.origin_ops Cors.default_config origin ++ Cors.credentials_ops Cors.default_config

abbrev pub is_preflight : Request → Bool
is_preflight r =
    if text_eq (get (ascii "Origin") r.header) [] then false else text_eq r.method (ascii "OPTIONS")

abbrev pub has_key : List Text → Request → Bool
has_key keys r =
    member (Auth.extract_bearer (get (Auth.header_of (Auth.default_config keys)) r.header)) keys

-- The header of the writer that the cache and the handlers behind it find.
abbrev pub held : List Text → Request → Header → Header
held keys r h = if has_key keys r then header_after h (cors_ops r) else h

module _ {W : Type 0} (clock : Clock W) (request_uri : Request → Text) (choice : W → ℕ)
    (upstream : Handler W) where
  -- The limiter is asked first, the breaker then.
  abbrev pub gates : Request → RateLimiter → Breaker → W → Verdict
  gates r limiter cb w =
      if not (allow (clock.now w) (clock.now w) (client_key r) limiter).0
      then too_fast
      else if not (admit (clock.now w) cb).0
      then broken
      else passed

  abbrev pub looked_up : Option Entry → Verdict → Verdict
  looked_up none v = v
  looked_up (some e) v = hit e

  abbrev pub from_cache : Request → Inner W → Verdict
  from_cache r (c, (limiter, (cb, w))) =
      let v = gates r limiter cb w in
      if text_eq r.method method_get
      then looked_up (Cache.get (clock.now w) (request_uri r) c).0 v
      else v

  abbrev pub verdict : List Text → Request → Inner W → Verdict
  verdict keys r s =
      if not (has_key keys r)
      then unauthorized
      else if is_preflight r
      then preflight
      else from_cache r s

  -- What the client receives then, where `h` is the header that the writer holds.
  abbrev pub answer : Request → Header → W → Verdict → Response
  answer r h w unauthorized = response h Auth.unauthorized
  answer r h w preflight = response h (Cors.preflight_ops Cors.default_config)
  answer r h w too_fast = response h too_many
  answer r h w broken = response h rejection
  answer r h w passed = response h (upstream r h w).0
  answer r h w (hit e) = response h (hit_ops e)

  -- What becomes of the limiter, the breaker and the world: only a request that comes to the
  -- limiter takes a token, only one that passes is settled with the breaker, by the status that the
  -- client receives, and only that one is sent to the upstream.
  abbrev pub effect :
      Request → Header → RateLimiter → Breaker → W → Verdict → RateLimiter × (Breaker × W)
  effect r h limiter cb w too_fast =
      ((allow (clock.now w) (clock.now w) (client_key r) limiter).1, (cb, w))
  effect r h limiter cb w broken = (
    (allow (clock.now w) (clock.now w) (client_key r) limiter).1,
    ((admit (clock.now w) cb).1, w),
  )
  effect r h limiter cb w passed =
      let (ops, w') = upstream r h w in
      (
        (allow (clock.now w) (clock.now w) (client_key r) limiter).1,
        (settle (clock.now w') (ltb (response h ops).status 500) (admit (clock.now w) cb).1, w'),
      )
  effect r h limiter cb w _ = (limiter, (cb, w))

  -- The client receives this answer of these calls, none of which writes the status 0, and this is
  -- left of the limiter, the breaker and the world.
  pub record Gated (r : Request) (h told_on : Header) (limiter : RateLimiter) (cb : Breaker) (w : W)
      (v : Verdict) (ops : List WriteOp) (left : RateLimiter × (Breaker × W)) : Type 0 where
    pub answered : response told_on ops ≡ answer r h w v
    pub changed : left ≡ effect r h limiter cb w v
    pub real : All IsRealOp ops

  -- Entries do not have the status 0.
  abbrev pub HasRealHit : Request → Inner W → Type 0
  HasRealHit r (c, (limiter, (cb, w))) =
      (e : Entry) → (Cache.get (clock.now w) (request_uri r) c).0 ≡ some e → e.status ≢ 0
