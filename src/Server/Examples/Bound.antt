-- ===== src/Server/Examples/Bound.antt =====
-- Requests of one client, with two tokens.
use cascade_proxy.Common.{ℕ, ◌+◌, ◌-◌, ◌*◌, ◌≤◌, refl, [], ◌∷◌, arith, ascii}
use cascade_proxy.Http.{Handler, write_header, write_body}
use cascade_proxy.CircuitBreaker
use cascade_proxy.RateLimiter
use cascade_proxy.RateLimiter.{unit}
use cascade_proxy.Middleware.Cache
use cascade_proxy.Middleware.Cache.Ok.{new-AreOk}
use cascade_proxy.Middleware.RateLimit.{client_key}
use cascade_proxy.Server.Bound.{Requests, sent, Counts, sent_bound}
use cascade_proxy.Server.Examples.{request, clock, uri, start_at, keys}

-- The world is the time, and how often the upstream was asked: a request takes one unit of it.
abbrev counting : Handler ℕ
counting r h w = (write_header 201 ∷ write_body (ascii "hi") ∷ [], w + 1)

abbrev asked : ℕ → ℕ
asked w = w

counting-Counts : Counts clock uri start_at counting keys asked
counting-Counts r h w = (refl, ((λ e. absurd (ground arith)), (tt, tt)))

abbrev burst : Requests ℕ
burst = (request, [], 5) ∷ (request, [], 6) ∷ (request, [], 7) ∷ []

abbrev narrow : RateLimiter.Config
narrow = record { requests_per_second = 1; burst = 2 }

sent_bound_example :
    unit
      * sent clock uri start_at counting keys asked
          (client_key request)
          (Cache.new Cache.default_config)
          (RateLimiter.new narrow)
          (CircuitBreaker.new CircuitBreaker.default_config)
          burst
    ≤ unit * 2 + (8 - 5) * 1
sent_bound_example =
    sent_bound clock uri start_at counting keys asked counting-Counts narrow (client_key request)
      (Cache.new Cache.default_config) (CircuitBreaker.new CircuitBreaker.default_config) 5 8 burst
      (new-AreOk Cache.default_config) (omega arith, (omega arith, (omega arith, omega arith)))
