-- ===== src/Middleware/Examples/Upstreams.antt =====
-- The middlewares that send requests on, and the counts of what comes back.
use cascade_proxy.Common.{
  ℕ, ◌+◌, ◌≡◌, refl, leb, ◌==◌, Option, some, List, [], ◌∷◌, ◌++◌, arith, Text, ascii, Result, ok,
  repeat, length,
}
use cascade_proxy.Http.{Request, Handler, WriteOp, write_header, write_body, Clock}
use cascade_proxy.Balancer
use cascade_proxy.Balancer.{Balancer}
use cascade_proxy.Middleware.Failover.{Base}
use cascade_proxy.Middleware.Balancing.Spread.{handle_all, directed, handle_all-directed}
use cascade_proxy.Middleware.Shadow
use cascade_proxy.Middleware.Shadow.{ShadowRequest, bytes_of, handle-mirrors}
use cascade_proxy.Middleware.Metrics.{new_metrics, u64, how_many}
use cascade_proxy.Middleware.Metrics.Served
use cascade_proxy.Middleware.Metrics.Served.{Requests, received, handle_all-totals}

abbrev request : Request
request = record {
  method = ascii "POST";
  scheme = [];
  url_host = [];
  path = ascii "/users";
  raw_query = [];
  host = ascii "front";
  header = (ascii "Accept", ascii "text/html" ∷ []) ∷ [];
  remote_addr = ascii "10.0.0.1:80";
  request_uri = ascii "/users?q=1";
  body = some (ascii "hello");
}

-- A target is a host, and the world the list of the requests that were sent.
abbrev base_of : Text → Base
base_of t = record { scheme = ascii "http"; host = t }

abbrev parse : Text → Result ℕ Base
parse t = ok (base_of t)

abbrev two : Balancer Base
two = record { targets = base_of (1 ∷ []) ∷ base_of (2 ∷ []) ∷ []; counter = 0 }

abbrev proxy : Request → List Request → Option (List WriteOp) × List Request
proxy r w = (some (write_header 200 ∷ []), w ++ (r ∷ []))

abbrev four : List Request
four = request ∷ request ∷ request ∷ request ∷ []

handle_all-directed_example :
    (handle_all proxy (λ w. w) four (two, [])).1 ≡ [] ++ directed (repeat 2 two.targets) four
handle_all-directed_example =
    handle_all-directed proxy (λ w. w) parse (record { targets = (1 ∷ []) ∷ (2 ∷ []) ∷ [] }) two 2
      (λ r w. refl) four [] (unfold Balancer.new in refl) (unfold Balancer.len in omega arith)
      (unfold Balancer.len in refl)

-- The world counts the shadow requests.
abbrev launch : ShadowRequest → ℕ → ℕ
launch shadow w = w + 1

abbrev read_all : Text → Option Text
read_all b = some b

abbrev hello : Handler ℕ
hello r h w = (write_header 201 ∷ write_body (bytes_of r.body) ∷ [], w + 3)

abbrev mirror : Shadow.Config
mirror = Shadow.default_config (ascii "http://shadow")

abbrev clock : Clock ℕ
clock = record { now = λ w. w; sleep = λ d w. w + d }

abbrev requests : Requests ℕ
requests = (request, [], 5) ∷ (request, [], 9) ∷ []

handle_all-totals_example :
    let m = Served.handle_all clock hello requests new_metrics in
    let got = received clock hello requests in
    (m.total_requests ≡ u64 (length got))
    × (m.total_errors ≡ u64 (how_many (leb 500) got))
    × (m.status_counts 201 ≡ u64 (how_many (λ t. t == 201) got))
handle_all-totals_example =
    handle_all-totals clock hello requests 201
      (((λ e. omega arith), (tt, tt)), (((λ e. omega arith), (tt, tt)), tt))
