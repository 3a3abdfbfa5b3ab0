-- ===== src/Server/Gates/Kept.antt =====
-- What the cache of the stack keeps.
use cascade_proxy.Common.{ℕ, List, [], Text, ascii, text_eq, Bool-cases, inl, inr}
use cascade_proxy.Http.{Header, Handler, Request, Clock, get, header_after}
use cascade_proxy.CircuitBreaker.{Breaker}
use cascade_proxy.RateLimiter.{RateLimiter}
use cascade_proxy.Middleware.Auth
use cascade_proxy.Middleware.Cache.Ok.{AreOk, handle-AreOk}
use cascade_proxy.Middleware.Cache.{ResponseCache}
use cascade_proxy.Middleware.Cors
use cascade_proxy.Server.{behind, limited, cached, authorized}
use cascade_proxy.Server.Gates.{has_key}
use cascade_proxy.Server.Gates.Served.{origin_heads}

module _ {W : Type 0} (clock : Clock W) (request_uri : Request → Text) (choice : W → ℕ)
    (upstream : Handler W) where
  -- Behind the key and CORS the cache keeps only answers with the status 200.
  pub authorized-AreOk :
      (keys : List Text) (r : Request) (h : Header) (c : ResponseCache)
      (x : RateLimiter × (Breaker × W))
      → AreOk c.entries
      → AreOk (authorized clock request_uri choice upstream keys r h (c, x)).1.0.entries
  unfolding authorized cached Auth.handle Cors.handle
  authorized-AreOk keys r h c x ok =
      let kept : (h1 : Header)
          → AreOk (cached clock request_uri choice upstream r h1 (c, x)).1.0.entries =
        λ h1.
          handle-AreOk (behind (behind clock)) request_uri (λ y. choice y.1.1)
            (limited clock request_uri choice upstream) r h1 c x ok in
      let origin = get (ascii "Origin") r.header in
      elim (Bool-cases (has_key keys r)) [
        | inr none_ ↦ rw none_ ok
        | inl key ↦ elim (Bool-cases (text_eq origin [])) [
          | inl plain ↦ rw (key, plain) (kept h)
          | inr named ↦ elim (Bool-cases (text_eq r.method (ascii "OPTIONS"))) [
            | inl asks ↦ rw (key, named, asks) ok
            | inr other ↦ rw (key, named, other) (kept (header_after h (origin_heads origin)))
          ]
        ]
      ]
