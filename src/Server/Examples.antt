-- ===== src/Server/Examples.antt =====
-- The stack at concrete requests.
mod Bound
use cascade_proxy.Common.{
  ℕ, ◌+◌, ◌-◌, ◌*◌, ◌≡◌, ◌≢◌, refl, sym, append-nil, Bool, true, false, none, List, [], ◌∷◌, ◌++◌,
  arith, length, map, repeat, Text, ascii, text_eq, lookup, Dict, Result, ok, All, has_prefix,
  trim_prefix, contains, IsFree,
}
use cascade_proxy.Http.{
  Request, Handler, Clock, write_header, write_body, response, get, header_after,
}
use cascade_proxy.Http.Canonical.{canonical}
use cascade_proxy.Http.Errors.{sends, error_header}
use cascade_proxy.Balancer.{target}
use cascade_proxy.Balancer.RoundRobin.{next_times}
use cascade_proxy.CircuitBreaker
use cascade_proxy.CircuitBreaker.{Breaker}
use cascade_proxy.RateLimiter
use cascade_proxy.RateLimiter.{RateLimiter}
use cascade_proxy.Middleware.Auth
use cascade_proxy.Middleware.RateLimit.{client_key}
use cascade_proxy.Middleware.Cache
use cascade_proxy.Middleware.Cache.Ok.{AreOk, new-AreOk}
use cascade_proxy.Middleware.Cache.{ResponseCache, Entry}
use cascade_proxy.Middleware.Compress.{Gzip}
use cascade_proxy.Middleware.Logged.{info, line_of}
use cascade_proxy.Middleware.Metrics.{new_metrics, record_request}
use cascade_proxy.Middleware.Recorder.Laws.{IsRealOp}
use cascade_proxy.Server.{comma, Deadline, Inner, stack}
use cascade_proxy.Server.Gates.{verdict, answer, effect, held, passed, unauthorized}
use cascade_proxy.Server.Stack.{stack-verdict}
use cascade_proxy.Middleware.Timeout.{theirs, ours}
use cascade_proxy.Server.Settings.{start_up-in_turn}
use cascade_proxy.Server.{start_up, Parts}
use cascade_proxy.Proxy.Request.{Url}
use cascade_proxy.Proxy.Serve
use cascade_proxy.Http.{Response}
use cascade_proxy.Middleware.Logged.{Line}
use cascade_proxy.Middleware.Metrics.{record_all}
use cascade_proxy.Server.Observed.Runs.{
  Requests, AllReal, appended, tallies, serve_all, serve_all-logged,
}

abbrev pub request : Request
request = record {
  method = ascii "GET";
  scheme = [];
  url_host = [];
  path = ascii "/users";
  raw_query = [];
  host = ascii "front";
  header = (ascii "Authorization", ascii "Bearer k" ∷ []) ∷ [];
  remote_addr = ascii "10.0.0.1:80";
  request_uri = ascii "/users";
  body = none;
}

abbrev pub clock : Clock ℕ
clock = record { now = λ w. w; sleep = λ d w. w + d }

abbrev pub uri : Request → Text
uri r = r.request_uri

abbrev pub start_at : ℕ → ℕ
start_at w = 0

abbrev upstream : Handler ℕ
upstream r h w = (write_header 201 ∷ write_body (ascii "hi") ∷ [], w + 3)

abbrev pub keys : List Text
keys = ascii "k" ∷ []

abbrev cache : ResponseCache
cache = Cache.new Cache.default_config

abbrev limiter : RateLimiter
limiter = RateLimiter.new RateLimiter.default_config

abbrev breaker : Breaker
breaker = CircuitBreaker.new CircuitBreaker.default_config

abbrev inner : Inner ℕ
inner = (cache, (limiter, (breaker, 5)))

abbrev storing : Gzip Text
storing = record { reset = []; write = λ t s. ([], s ++ t); close = λ s. s ∷ [] }

-- Every handler is in time.
abbrev patient : Deadline (Inner ℕ)
patient = record {
  run = λ next t r h v.
      (record { ops = (next r h v).0; expired = false; turns = [] }, (next r h v).1);
  in_time = λ next t r h v quick. (refl, refl);
}

true-false : ◌≢◌ {A = Bool} true false
true-false e = cc

-- The deadline passes, and the handler sends its status among the calls of the timeout.
abbrev hasty : Deadline (Inner ℕ)
hasty = record {
  run = λ next t r h v. (
    record { ops = (next r h v).0; expired = true; turns = ours ∷ theirs ∷ theirs ∷ theirs ∷ [] },
    v,
  );
  in_time = λ next t r h v quick. absurd (true-false quick);
}

upstream_real : All IsRealOp (upstream request (held keys request []) 5).0
upstream_real = ((λ e. absurd (ground arith)), (tt, tt))

-- The request passes; without the key it is refused.
verdict_passed : verdict clock uri start_at upstream keys request inner ≡ passed
unfolding Auth.extract_bearer get lookup text_eq ascii canonical Cache.get Cache.new
    RateLimiter.allow RateLimiter.new CircuitBreaker.admit CircuitBreaker.new has_prefix trim_prefix
    client_key
verdict_passed = refl

verdict_refused : verdict clock uri start_at upstream [] request inner ≡ unauthorized
verdict_refused = refl

unpacked : contains (get (ascii "Accept-Encoding") request.header) (ascii "gzip") ≡ false
unfolding get lookup text_eq ascii canonical contains has_prefix
unpacked = refl

stack-verdict_example :
    let (ops, (log', (m', (c', left)))) =
      stack clock uri start_at upstream storing patient keys request []
        ([], (new_metrics, inner)) in
    let v = verdict clock uri start_at upstream keys request inner in
    let got = answer clock uri start_at upstream request (held keys request []) 5 v in
    let took = left.1.1 - 5 in
    (response [] ops ≡ got)
    × (left ≡ effect clock uri start_at upstream request (held keys request []) limiter breaker 5 v)
    × (log'
        ≡ line_of info request (record { status_code = got.status; written = length got.body }) took
          ∷ [])
    × (m' ≡ record_request got.status took new_metrics)
    × AreOk c'.entries
stack-verdict_example =
    stack-verdict clock uri start_at upstream storing patient keys request [] [] new_metrics cache
      limiter breaker 5 upstream_real (new-AreOk Cache.default_config) unpacked refl

-- Two backends. A text is its own host.
abbrev url_of : Text → Url
url_of t = record { scheme = ascii "http"; host = t; path = []; raw_query = [] }

abbrev parse : Text → Result ℕ Url
parse t = ok (url_of t)

abbrev two : List Text
two = ascii "http://a" ∷ ascii "http://b" ∷ []

abbrev env : Dict Text
env = (ascii "BACKENDS", ascii "http://a,http://b") ∷ []

two-IsFree : All (IsFree comma) two
unfolding ascii
two-IsFree = ground arith

start_up-in_turn_example :
    (parts : Parts) × (start_up parse Serve.default_config env ≡ ok parts)
    × ((next_times (3 * length two) parts.balancer).0 ≡ repeat 3 (map target (map url_of two)))
    × (parts.checker.targets ≡ two)
start_up-in_turn_example =
    start_up-in_turn parse Serve.default_config (url_of Serve.default_config.target_url) env two
      (map url_of two) 3 refl (λ e. cc) two-IsFree (unfold lookup text_eq ascii in refl)
      (unfold ascii in λ e. cc) refl (omega arith)

-- Three requests to the upstream, a pause before each.
abbrev three : Requests ℕ
three =
    (request, [], λ w. w + 1)
    ∷ (record request { method = ascii "POST" }, [], λ w. w + 2)
    ∷ (request, [], λ w. w)
    ∷ []

three-AllReal : AllReal clock upstream three 5
unfolding AllReal
three-AllReal = (upstream_real, (upstream_real, (upstream_real, tt)))

serve_all-logged_example :
    let (got, (log', (m', w'))) = serve_all clock upstream three ([], (new_metrics, 5)) in
    (lines : List Line) × (log' ≡ appended lines [])
    × (map (λ (l : Line). l.status) lines ≡ map (λ (a : Response). a.status) got)
    × (m' ≡ record_all (tallies lines) new_metrics)
serve_all-logged_example = serve_all-logged clock upstream three [] new_metrics 5 three-AllReal
