-- ===== src/Server/Gates/Served.antt =====
-- The handlers of the stack keep to the gates.
use cascade_proxy.Server.Gates.Writes.{
  append-IsRealOp, hit_ops-IsRealOp, response-heads, heads-IsRealOp,
}
use cascade_proxy.Common.{
  ℕ, refl, ◌∙◌, false, List, [], ◌++◌, arith, Text, ascii, text_eq, All, Bool-cases, Option-cases,
  inl, inr,
}
use cascade_proxy.Http.{Header, Handler, Request, WriteOp, Clock, get, header_after}
use cascade_proxy.Http.Heads.{IsHeaderOp}
use cascade_proxy.CircuitBreaker.{Breaker, admit}
use cascade_proxy.RateLimiter.{RateLimiter, allow}
use cascade_proxy.Middleware.Auth
use cascade_proxy.Middleware.Breaker.{wrap_lem, wrap-IsRealOp}
use cascade_proxy.Middleware.Cache
use cascade_proxy.Middleware.Cache.{Entry, ResponseCache, hit_ops, method_get}
use cascade_proxy.Middleware.Cors
use cascade_proxy.Middleware.RateLimit
use cascade_proxy.Middleware.RateLimit.{client_key, too_many}
use cascade_proxy.Middleware.Recorder.Laws.{IsRealOp, record_ops-transparent}
use cascade_proxy.Middleware.Recorder.Orderly.{http_error-IsRealOp, record_ops-IsRealOp}
use cascade_proxy.Middleware.Recorder
use cascade_proxy.Middleware.Recorder.{record_ops}
use cascade_proxy.Server.{limited, cached, authorized}
use cascade_proxy.Server.Gates.{held, has_key, gates, from_cache, verdict, Gated, HasRealHit}

-- The headers that are set for an origin: of every origin, and without credentials.
abbrev pub origin_heads : Text → List WriteOp
origin_heads origin =
    Cors.origin_ops Cors.default_config origin ++ Cors.credentials_ops Cors.default_config

origin_heads-IsHeaderOp : (origin : Text) → All IsHeaderOp (origin_heads origin)
unfolding Cors.origin_ops Cors.credentials_ops ascii text_eq
origin_heads-IsHeaderOp origin = (tt, tt)

preflight_ops-IsRealOp : All IsRealOp (Cors.preflight_ops Cors.default_config)
unfolding Cors.preflight_ops ascii text_eq
preflight_ops-IsRealOp = (tt, (tt, (tt, ((λ e. absurd (ground arith)), tt))))

module _ {W : Type 0} (clock : Clock W) (request_uri : Request → Text) (choice : W → ℕ)
    (upstream : Handler W) where
  limited-Gated :
      (r : Request) (h : Header) (limiter : RateLimiter) (cb : Breaker) (w : W)
      → All IsRealOp (upstream r h w).0
      → let (ops, left) = limited clock request_uri choice upstream r h (limiter, (cb, w)) in
        Gated clock request_uri choice upstream r h h limiter cb w
          (gates clock request_uri choice upstream r limiter cb w)
          ops
          left
  unfolding limited RateLimit.handle
  limited-Gated r h limiter cb w real =
      let asked = (allow (clock.now w) (clock.now w) (client_key r) limiter).1 in
      let real' = wrap-IsRealOp clock upstream r h cb w real in
      let (same, world, settled) = wrap_lem clock upstream r h cb w real in
      elim (Bool-cases (allow (clock.now w) (clock.now w) (client_key r) limiter).0) [
        | inr refused ↦ rw refused (record {
          answered = refl;
          changed = refl;
          real = http_error-IsRealOp [] 429 (λ e. absurd (ground arith));
        })
        | inl granted ↦ elim (Bool-cases (admit (clock.now w) cb).0) [
          | inl allowed ↦
              let settled' = rw allowed at settled in
              let world' = rw allowed at world in
              rw (granted, allowed)
                (record {
                  answered = rw allowed at same;
                  changed = λ i. (asked, (settled' i, world' i));
                  real = real';
                })
          | inr refused ↦
              let settled' = rw refused at settled in
              let world' = rw refused at world in
              rw (granted, refused)
                (record {
                  answered = rw refused at same;
                  changed = λ i. (asked, (settled' i, world' i));
                  real = real';
                })
        ]
      ]

  cached-Gated :
      (r : Request) (h : Header) (c : ResponseCache) (limiter : RateLimiter) (cb : Breaker) (w : W)
      → All IsRealOp (upstream r h w).0
      → HasRealHit clock request_uri choice upstream r (c, (limiter, (cb, w)))
      → let (ops, (c', left)) =
          cached clock request_uri choice upstream r h (c, (limiter, (cb, w))) in
        Gated clock request_uri choice upstream r h h limiter cb w
          (from_cache clock request_uri choice upstream r (c, (limiter, (cb, w))))
          ops
          left
  unfolding cached Cache.handle Cache.answer Cache.miss
  cached-Gated r h c limiter cb w real real_hit =
      let inner = limited-Gated r h limiter cb w real in
      let ops = (limited clock request_uri choice upstream r h (limiter, (cb, w))).0 in
      elim (Bool-cases (text_eq r.method method_get)) [
        | inr other ↦ rw other inner
        | inl got ↦ elim (Option-cases (Cache.get (clock.now w) (request_uri r) c).0) [
          | inl missed ↦
              rw (got, missed)
                (record {
                  answered = (record_ops-transparent h ops inner.real).0 ∙ inner.answered;
                  changed = inner.changed;
                  real = record_ops-IsRealOp false ops Recorder.new refl inner.real;
                })
          | inr (e, found) ↦
              rw (got, found)
                (record {
                  answered = refl;
                  changed = refl;
                  real = hit_ops-IsRealOp e (real_hit e found);
                })
        ]
      ]

  -- A request without a valid key is refused, and nothing else is asked; a preflight request with
  -- one is answered by CORS. Other requests are answered from the cache, which is asked first, by
  -- the limiter, by the breaker or by the upstream, which is asked last and only if all the others
  -- let the request pass. The headers of CORS are set before, and the changes of the limiter, the
  -- breaker and the world are those that belong to the one who answers. The upstream writes no
  -- status 0 for the request, and the entry that is found, if one is, does not have it.
  pub authorized-Gated :
      (keys : List Text) (r : Request) (h : Header) (c : ResponseCache) (limiter : RateLimiter)
      (cb : Breaker) (w : W)
      → All IsRealOp (upstream r (held keys r h) w).0
      → HasRealHit clock request_uri choice upstream r (c, (limiter, (cb, w)))
      → let (ops, (c', left)) =
          authorized clock request_uri choice upstream keys r h (c, (limiter, (cb, w))) in
        Gated clock request_uri choice upstream r
          (held keys r h)
          h
          limiter
          cb
          w
          (verdict clock request_uri choice upstream keys r (c, (limiter, (cb, w))))
          ops
          left
  unfolding authorized Auth.handle Cors.handle header_after
  authorized-Gated keys r h c limiter cb w real real_hit = elim (Bool-cases (has_key keys r)) [
    | inr none_ ↦ rw none_ (record {
      answered = refl;
      changed = refl;
      real = http_error-IsRealOp [] 401 (λ e. absurd (ground arith));
    })
    | inl key ↦
        let origin = get (ascii "Origin") r.header in
        elim (Bool-cases (text_eq origin [])) [
          | inl plain ↦
              let inner = cached-Gated r h c limiter cb w (rw (key, plain) at real) real_hit in
              rw (key, plain) inner
          | inr named ↦ elim (Bool-cases (text_eq r.method (ascii "OPTIONS"))) [
            | inl asks ↦
                rw (key, named, asks)
                  (record {
                    answered =
                        response-heads h (origin_heads origin) _ (origin_heads-IsHeaderOp origin);
                    changed = refl;
                    real =
                        append-IsRealOp (origin_heads origin) _
                          (heads-IsRealOp (origin_heads origin) (origin_heads-IsHeaderOp origin))
                          preflight_ops-IsRealOp;
                  })
            | inr other ↦
                let h1 = header_after h (origin_heads origin) in
                let inner = cached-Gated r h1 c limiter cb w (rw (key, named) at real) real_hit in
                rw (key, named, other)
                  (record {
                    answered =
                        response-heads h (origin_heads origin) _ (origin_heads-IsHeaderOp origin)
                        ∙ inner.answered;
                    changed = inner.changed;
                    real =
                        append-IsRealOp (origin_heads origin) _
                          (heads-IsRealOp (origin_heads origin) (origin_heads-IsHeaderOp origin))
                          inner.real;
                  })
          ]
        ]
  ]
