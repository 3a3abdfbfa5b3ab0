-- ===== src/Middleware/Examples.antt =====
-- The middlewares that wrap the writer or keep a state, at concrete requests.
mod Upstreams
mod Tokens
mod Contexts
mod Writers
mod Repeats
mod Late
use cascade_proxy.Common.{
  ℕ, ◌+◌, ◌≡◌, ◌≢◌, ◌≤◌, ◌<◌, ◌⊎◌, refl, Bool, true, false, Option, none, some, List, [], ◌∷◌, ◌++◌,
  arith, if◌then◌else◌, ltb, leb, ◌%◌, ◌^◌, ◌==◌, any, Text, ascii, text_eq, text_eq_iff, lookup,
  insert, length, ap, All,
}
use cascade_proxy.Http.{
  Request, Header, Handler, WriteOp, set_header, write_header, write_body, Clock, Response,
  response, at_key, get, header_after,
}
use cascade_proxy.Http
use cascade_proxy.Http.Canonical.{canonical}
use cascade_proxy.CircuitBreaker
use cascade_proxy.CircuitBreaker.{Breaker, admit, settle}
use cascade_proxy.RateLimiter
use cascade_proxy.RateLimiter.{RateLimiter}
use cascade_proxy.Middleware.Recorder
use cascade_proxy.Middleware.Recorder.{record_ops}
use cascade_proxy.Middleware.Recorder.Laws.{record_ops-transparent}
use cascade_proxy.Middleware.Cache
use cascade_proxy.Middleware.Cache.{ResponseCache, Entry, method_get}
use cascade_proxy.Middleware.Cache.Store.{
  IsBounded, set-IsBounded, get-set, lookup-set_other, stamped,
}
use cascade_proxy.Middleware.Cache.Hits.{miss_then_hit, hit_repeats_header}
use cascade_proxy.Middleware.Breaker.{wrap, wrap_lem, rejection}
use cascade_proxy.Middleware.RateLimit
use cascade_proxy.Middleware.RateLimit.{new_name_served}
use cascade_proxy.Middleware.Headers
use cascade_proxy.Middleware.Headers.{intercept}
use cascade_proxy.Middleware.Headers.Sent.{
  intercept-header, intercept_silent, configured, configured_or,
}
use cascade_proxy.Middleware.Failover
use cascade_proxy.Middleware.Failover.{Buffered, Base}
use cascade_proxy.Middleware.Failover.Cascade.{Exhausted, Wins, handle-cascades}
use cascade_proxy.Middleware.Throttle
use cascade_proxy.Middleware.Throttle.{
  Throttle, Rejected, Reachable, start, then_, arrive, send, serve, reject, tick, reachable-few,
}
use cascade_proxy.Middleware.Metrics.{record_all, new_metrics, record_all-totals, how_many, u64}

abbrev client : Header
client = (ascii "X-Forwarded-For", ascii "198.51.100.7" ∷ []) ∷ []

abbrev request : Request
request = record {
  method = ascii "GET";
  scheme = [];
  url_host = [];
  path = ascii "/users";
  raw_query = [];
  host = ascii "front";
  header = client;
  remote_addr = ascii "10.0.0.1:80";
  request_uri = ascii "/users";
  body = none;
}

-- The world is the time; the handler takes 3 and answers hello.
abbrev clock : Clock ℕ
clock = record { now = λ w. w; sleep = λ d w. w + d }

abbrev hello : Handler ℕ
hello r h w = (
  set_header (ascii "Content-Type") (ascii "text/plain") ∷ write_body (ascii "hello") ∷ [],
  w + 3,
)

abbrev unavailable : List WriteOp
unavailable = write_header 503 ∷ write_header 200 ∷ write_body (ascii "busy") ∷ []

record_ops-transparent_example :
    let (r, told) = record_ops unavailable Recorder.new in
    (response [] told ≡ response [] unavailable)
    × (Recorder.status r ≡ (response [] unavailable).status)
    × (Recorder.body r ≡ (response [] unavailable).body)
    × (Recorder.bytes_written r ≡ length (response [] unavailable).body)
record_ops-transparent_example =
    record_ops-transparent [] unavailable ((λ e. omega arith), ((λ e. omega arith), (tt, tt)))

-- A cache for one answer.
abbrev empty : ResponseCache
empty = record { entries = []; cfg = record { ttl = 50; max_entries = 1 } }

abbrev uri : Request → Text
uri r = r.request_uri

abbrev first_entry : ℕ → ℕ
first_entry w = 0

-- What an outer handler has set.
abbrev outer : Header
outer = (ascii "Vary", ascii "Origin" ∷ []) ∷ []

abbrev served : Request → Header → ResponseCache × ℕ → List WriteOp × (ResponseCache × ℕ)
served = Cache.handle clock uri first_entry hello

miss_then_hit_example :
    let (ops, (c1, w1)) = served request outer (empty, 10) in
    let (ops2, (c2, w2')) = served request outer (c1, 40) in
    (w2' ≡ 40)
    × (c2 ≡ c1)
    × ((response outer ops2).status ≡ (response outer ops).status)
    × ((response outer ops2).body ≡ (response outer ops).body)
miss_then_hit_example =
    miss_then_hit clock uri first_entry hello request request outer outer empty 10 40 refl refl refl
      (unfold Cache.get lookup in refl) (tt, (tt, tt)) (unfold response in refl)
      (unfold Cache.get lookup in omega arith)

abbrev page : Entry
page = record { header = []; body = ascii "hello"; status = 200; exp = 0 }

set-IsBounded_example : IsBounded (Cache.set 7 0 (ascii "/a") page empty)
set-IsBounded_example = set-IsBounded 7 0 (ascii "/a") page empty (omega arith) (omega arith)

abbrev breaker : Breaker
breaker = CircuitBreaker.new CircuitBreaker.default_config

abbrev busy : Handler ℕ
busy r h w = (unavailable, w + 3)

wrap_lem_example :
    let (ops, (cb', w')) = wrap clock busy request outer (breaker, 10) in
    let (allowed, cb1) = admit 10 breaker in
    let answer = response outer unavailable in
    (response outer ops ≡ (if allowed then answer else response outer rejection))
    × (w' ≡ (if allowed then 13 else 10))
    × (cb' ≡ (if allowed then settle 13 (ltb answer.status 500) cb1 else cb1))
wrap_lem_example =
    wrap_lem clock busy request outer breaker 10
      ((λ e. omega arith), ((λ e. omega arith), (tt, tt)))

abbrev added : Headers.Config
added = record Headers.default_config {
  response_headers = (ascii "X-Frame-Options", ascii "DENY") ∷ [];
  remove_response_headers = ascii "Server" ∷ [];
}

intercept-header_example :
    at_key (ascii "Server") (response outer (intercept added false unavailable)).header
    ≡ configured_or (configured (ascii "Server") added.response_headers) (
        if any (λ k. text_eq (canonical k) (ascii "Server")) added.remove_response_headers
        then []
        else at_key (ascii "Server") (response outer unavailable).header)
intercept-header_example = intercept-header added outer unavailable (ascii "Server") refl

-- Room for one, and five units of time to wait: the first is served, the second rejected.
abbrev narrow : Throttle.Config
narrow = record { max_concurrent = 1; queue_timeout = 5 }

abbrev crowded : Throttle
crowded = record {
  cfg = narrow;
  now = 5;
  sem = 1;
  waiting = [];
  entered = [];
  serving = 7 ∷ [];
  leaving = [];
  rejected = record { id = 8; came = 0; answered = 5 } ∷ [];
}

crowding : Reachable narrow crowded
unfolding Throttle.new
crowding =
    let came = then_ (then_ start (arrive 8)) (arrive 7) in
    let sent = then_ came (send 7 0 [] ((8, 0) ∷ []) refl (omega arith)) in
    let busy = then_ sent (serve 7 [] [] refl) in
    then_ (then_ busy (tick 5)) (reject 8 0 [] [] refl (omega arith))

reachable-few_example :
    (length crowded.entered + length crowded.serving + length crowded.leaving ≡ crowded.sem)
    × (length crowded.serving ≤ 1)
    × (length crowded.leaving ≤ crowded.sem)
    × All (λ (x : Rejected). x.came + narrow.queue_timeout ≤ x.answered) crowded.rejected
reachable-few_example = reachable-few narrow crowded crowding

-- A recorder that keeps the calls, with the status that a client would receive.
abbrev buffered : Buffered
buffered = record { status = λ ops. (response [] ops).status; flush = λ ops. ops }

abbrev parse_base : Text → Option Base
parse_base t = some (record { scheme = ascii "http"; host = t })

abbrev two_backends : Failover.Config
two_backends = record Failover.default_config { backends = ascii "a" ∷ ascii "b" ∷ [] }

-- Only the backend b answers.
abbrev only_b : Handler ℕ
only_b r h w =
    (if text_eq r.host (ascii "b") then write_body (ascii "hello") ∷ [] else unavailable, w + 3)

handle-cascades_example :
    let answer = Failover.handle buffered parse_base only_b two_backends request outer 10 in
    Exhausted buffered parse_base only_b two_backends request 10 two_backends.backends answer
    ⊎ Wins buffered parse_base only_b two_backends request 10 two_backends.backends answer
handle-cascades_example = handle-cascades buffered parse_base only_b two_backends request outer 10

second_answers :
    Failover.handle buffered parse_base only_b two_backends request outer 10
    ≡ (write_body (ascii "hello") ∷ [], 16)
unfolding Failover.handle response text_eq ascii Http.apply_all Http.apply Http.set
second_answers = refl
