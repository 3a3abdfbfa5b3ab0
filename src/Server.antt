-- ===== src/Server.antt =====
-- cmd/server/main.go: the stack of handlers, the multiplexer and the settings from the environment.
-- The constructors are taken as they are declared: `main` calls some of them with other arguments,
-- and does not compile. What stands behind the circuit breaker, the retries, the balancer and the
-- proxy in `main`, is a parameter, since the declared balancing handler calls no next handler; so
-- is what a handler has done when a deadline passes, and the keys of the API, of which `main` gives
-- none. The multiplexer's cleaning of paths, and the listening, are left out.

pub mod Observed
pub mod Gates
pub mod Timed
pub mod Stack
pub mod Settings
pub mod Bound
mod Examples
use cascade_proxy.Common.{
  ℕ, Bool, true, false, Option, none, some, List, [], ◌∷◌, ◌++◌, ◌==◌, ◌≡◌, if◌then◌else◌, Text,
  ascii, text_eq, split, or_else, Dict, lookup, Result, ok, err,
}
use cascade_proxy.Http.{Header, Handler, Request, WriteOp, Clock}
use cascade_proxy.Balancer
use cascade_proxy.Balancer.{Balancer}
use cascade_proxy.CircuitBreaker
use cascade_proxy.CircuitBreaker.{Breaker}
use cascade_proxy.RateLimiter
use cascade_proxy.RateLimiter.{RateLimiter}
use cascade_proxy.Proxy.Request.{Url}
use cascade_proxy.Proxy.Serve
use cascade_proxy.Proxy.Serve.{Proxy}
use cascade_proxy.HealthCheck
use cascade_proxy.HealthCheck.{Checker, Status, Outcome}
use cascade_proxy.Middleware.Auth
use cascade_proxy.Middleware.Breaker.{wrap}
use cascade_proxy.Middleware.Cache
use cascade_proxy.Middleware.Cache.{ResponseCache}
use cascade_proxy.Middleware.Compress
use cascade_proxy.Middleware.Compress.{Gzip}
use cascade_proxy.Middleware.Cors
use cascade_proxy.Middleware.Logged
use cascade_proxy.Middleware.Logged.{Log}
use cascade_proxy.Middleware.Metrics.{Metrics, new_metrics}
use cascade_proxy.Middleware.Metrics.Served
use cascade_proxy.Middleware.RateLimit
use cascade_proxy.Middleware.Timeout
use cascade_proxy.Middleware.Timeout.{Background, Started, with_timeout, recover}

-- os.Getenv(key): the empty text where the variable is missing.
abbrev pub get_env : Text → Dict Text → Text
get_env key env = or_else (lookup key env) []

unfoldable pub env_or : Dict Text → Text → Text → Text
env_or env key fallback = let v = get_env key env in if text_eq v [] then fallback else v

abbrev pub comma : ℕ
comma = b','

unfoldable pub target_urls : Dict Text → List Text
unfolding env_or
target_urls env = split comma (env_or env (ascii "BACKENDS") (ascii "http://localhost:9090"))

unfoldable pub address : Dict Text → Text
unfolding env_or
address env = env_or env (ascii "ADDR") (ascii ":8080")

-- The balancer and the checker of the server, over the same targets.
unfoldable pub start_balancer :
    {Url E : Type 0} → (Text → Result E Url) → Dict Text → Result (Balancer.Error E) (Balancer Url)
unfolding target_urls
start_balancer parse env = Balancer.new parse (record { targets = target_urls env })

unfoldable pub start_checker : Dict Text → Checker
unfolding target_urls
start_checker env = HealthCheck.new (target_urls env)

-- How the start fails, with log.Fatalf.
pub data StartError (E : Type 0) : Type 0 where
  no_balancer : Balancer.Error E → StartError E
  no_proxy : E → StartError E

pub record Parts : Type 0 where
  pub balancer : Balancer Url
  pub proxy : Proxy
  pub breaker : Breaker
  pub limiter : RateLimiter
  pub checker : Checker

-- What is made before the stack; the configuration of the proxy, of which `main` gives no target,
-- is a parameter.
unfoldable pub start_up :
    {E : Type 0} → (Text → Result E Url) → Serve.Config → Dict Text → Result (StartError E) Parts
unfolding start_balancer start_checker
start_up parse cfg env = elim (start_balancer parse env) [
  | err e ↦ err (no_balancer e)
  | ok bal ↦ elim (Serve.new parse cfg) [
    | err e ↦ err (no_proxy e)
    | ok p ↦ ok (record {
      balancer = bal;
      proxy = p;
      breaker = CircuitBreaker.new CircuitBreaker.default_config;
      limiter = RateLimiter.new RateLimiter.default_config;
      checker = start_checker env;
    })
  ]
]

-- A clock, for handlers with a state in front of the world.
abbrev pub behind : {S W : Type 0} → Clock W → Clock (S × W)
behind clock = record { now = λ x. clock.now x.1; sleep = λ d x. (x.0, clock.sleep d x.1) }

-- What the handlers of the stack keep, from the cache on, and from the logger on.
abbrev pub Inner : Type 0 → Type 0
Inner W = ResponseCache × (RateLimiter × (Breaker × W))

abbrev pub Outer : Type 0 → Type 0
Outer W = Log × (Metrics × Inner W)

-- The state in which the stack starts.
unfoldable pub initial : {W : Type 0} → Parts → W → Outer W
initial parts w =
    ([], (new_metrics, (Cache.new Cache.default_config, (parts.limiter, (parts.breaker, w)))))

-- How a handler fares that is started with a deadline: one that is in time does what it does
-- without.
pub record Deadline (V : Type 0) : Type 0 where
  pub run : Handler V → ℕ → Background V
  pub in_time :
      (next : Handler V) (t : ℕ) (r : Request) (h : Header) (v : V)
      → (run next t r h v).0.expired ≡ false
      → ((run next t r h v).0.ops ≡ (next r h v).0) × ((run next t r h v).1 ≡ (next r h v).1)

module _ {W : Type 0} (clock : Clock W) (request_uri : Request → Text) (choice : W → ℕ)
    (upstream : Handler W) where
  -- the circuit breaker and the rate limit
  unfoldable pub limited : Handler (RateLimiter × (Breaker × W))
  limited = RateLimit.handle (behind clock) (wrap clock upstream)

  unfoldable pub cached : Handler (Inner W)
  unfolding limited
  cached = Cache.handle (behind (behind clock)) request_uri (λ x. choice x.1.1) limited

  -- CORS and the key of the API
  unfoldable pub authorized : List Text → Handler (Inner W)
  unfolding cached
  authorized keys = Auth.handle (Auth.default_config keys) (Cors.handle Cors.default_config cached)

  module _ {S : Type 0} (gzip : Gzip S) (deadline : Deadline (Inner W)) where
    -- compression, the timeout and the recovery; a panic does not reach the recovery
    unfoldable pub timed : List Text → Handler (Inner W)
    unfolding authorized
    timed keys =
        with_timeout Timeout.default_config
          (deadline.run (Compress.handle gzip Compress.default_config (authorized keys)))

    unfoldable pub recovered : List Text → Handler (Inner W)
    unfolding timed
    recovered keys = recover (λ r h v. let (ops, v') = timed keys r h v in ((ops, false), v'))

    -- the metrics and the logger
    unfoldable pub stack : List Text → Handler (Outer W)
    unfolding recovered
    stack keys =
        Logged.logger (behind (behind (behind (behind clock))))
          (Served.handle (behind (behind (behind clock))) (recovered keys))

    -- The multiplexer with its two patterns.
    module _ (show_duration : ℕ → Text)
        (go_all : List Text → Outer W → List (Text × Outcome) × Outer W)
        (encode : Bool → List Status → Text) where
      unfoldable pub serve : List Text → Handler (Checker × Outer W)
      unfolding stack
      serve keys r h (c, s) =
          let (ops, s') = stack keys r h s in
          if text_eq r.path (ascii "/health")
          then HealthCheck.handle show_duration go_all encode r h (c, s)
          else (ops, (c, s'))
