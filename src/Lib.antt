-- ===== src/Lib.antt =====
-- cascade-proxy, a reverse proxy in Go with a stack of HTTP middlewares.
--
-- A request comes to the server, runs through the middlewares, each a handler that wraps the next,
-- and ends at the proxy, which sends it to an upstream through a circuit breaker and retries it. The
-- balancer chooses among upstreams, and the rate limiter counts the requests of each client.
--
-- Which file models what:
--   Common          what the other files share: tests on numbers, lists, Go strings as lists of
--                   bytes (Text), Go maps with string keys as association lists (Dict), results
--   Http            what the program uses of net/http: a header map, a request, and a handler as a
--                   function to the list of what it does to its http.ResponseWriter; `response` is
--                   what the client receives of such a list
--   CircuitBreaker  internal/circuitbreaker/circuitbreaker.go: currentState, onFailure, onSuccess
--                   and Execute; Events has its critical sections as steps of concurrent calls,
--                   Reference a specification with three phases, Runs histories, Calls Execute
--   Balancer        internal/balancer/balancer.go: New, Next, Len
--   RateLimiter     internal/ratelimiter/ratelimiter.go: Allow; Bounds is about one bucket, Keys and
--                   Service about many clients, Handler and Served the method Middleware
--   Proxy           internal/proxy: Request is request.go and Serve is proxy.go, with `serve_http` for
--                   ServeHTTP and `forward` for forward
--   Middleware      internal/middleware, a file for each: Recorder is response_recorder.go, Cache
--                   cache.go, Breaker circuitbreaker.go, RateLimit ratelimit.go, Throttle
--                   throttle.go, Headers headers.go, Metrics metrics.go, Auth auth.go, BasicAuth
--                   basicauth.go, IpFilter ip_filter.go, GeoBlock geoblock.go, Sanitize
--                   sanitize.go, Redirect redirect.go, Rewrite rewrite.go, Cors cors.go,
--                   Maintenance maintenance.go, Canary canary.go, Failover failover.go, Jwt jwt.go
--                   and jwt_helpers.go, RequestSize requestsize.go, BodySize bodysize.go,
--                   BreachLog breachlog.go, Compress compress.go, ResponseTransform
--                   responsetransform.go, RequestTransform reqtransform.go, PathRateLimit
--                   ratelimitbypath.go, Retry retry.go, Dedupe dedupe.go, Balancing balancer.go,
--                   Shadow shadow.go, Upstream upstream.go, ProxyError proxyerror.go, Timeout
--                   timeout.go and recovery.go, Logged logger.go and accesslog.go, Tracing
--                   tracing.go, RequestId requestid.go; Contexts is what the last two and jwt.go
--                   store in the context of a request; Recording is the recorder that retry.go,
--                   dedupe.go and proxyerror.go use; `handle` (`wrap` in Breaker) is the handler that the
--                   constructor makes
--   HealthCheck     internal/healthcheck/healthcheck.go: New, Probe, Statuses, Handler
--   Server          cmd/server/main.go: the settings, the stack of handlers and the multiplexer; Gates
--                   says which handler of the stack answers, Stack is about the whole, and Bound
--                   about how often it asks the upstream
-- The files called Examples hold runs on concrete inputs.
--
-- Where the code reads a clock, calls an upstream or draws a random number, the model has a world
-- `W` and functions of it as parameters. Parameters stand for the HTTP client, url.Parse, base64,
-- regular expressions, gzip, hashes, new identifiers, the package net and JSON, too. A recorder's
-- methods that the source calls and does not declare are an interface. Times are nanoseconds. A
-- mutex makes what it guards one step; the calls of Execute may interleave between its two
-- critical sections, a handler that is late goes on and writes among the calls that answer for it
-- (Timeout and its Race), and the throttle, the deduplication and the breach log (Concurrent in
-- both) are step relations on requests. Each call on a writer is one step, and what happens when
-- two goroutines change one header map at once is left out. The response of net/http is all that
-- was written to it.
--
-- The retries of ServeHTTP are a recursion on the rounds that are left, max_retries + 1 of them at
-- first, which is the number of rounds of the loop, and those of the retry middleware on the
-- attempts that are left; the search of containsSubstring counts the places that are left, which
-- are all those of its loop. No other recursion has fuel. The balancer's counter and the counters
-- of the metrics wrap at 2 ^ 64. Configured numbers are not negative. The tokens of the rate
-- limiter are exact multiples of a thousand-millionth, where the code rounds in float64, and its
-- rate is a whole number.
--
-- Not modelled: log lines but those of Logged, Tracing and BreachLog, the deadlines of contexts
-- and the timeouts of the HTTP client, informational statuses, that net/http sends no body in
-- answer to HEAD or with the statuses 204 and 304, what a late handler does to the state once it
-- is answered for, and, of the server, the listening and the loop of its health check. main calls
-- constructors with other arguments than they are declared with; they are taken as declared.
pub mod Balancer
pub mod CircuitBreaker
pub mod Common
pub mod HealthCheck
pub mod Http
pub mod Middleware
pub mod Proxy
pub mod RateLimiter
pub mod Server
