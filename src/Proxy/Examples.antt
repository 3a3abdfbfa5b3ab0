-- ===== src/Proxy/Examples.antt =====
-- The proxy with an upstream that fails at first.
use cascade_proxy.Common.{
  ℕ, ◌+◌, ◌≡◌, refl, Option, none, some, List, [], ◌∷◌, ◌++◌, if◌then◌else◌, ltb, Text, ascii,
  text_eq, Result, ok, lookup,
}
use cascade_proxy.Http.{Request, WriteOp, Clock, IsCanonical}
use cascade_proxy.Http.Canonical.{canonical}
use cascade_proxy.CircuitBreaker
use cascade_proxy.Proxy.Request.{Url, unread, OutRequest, Upstream, single_joining_slash}
use cascade_proxy.Proxy.Serve.{default_config, Proxy, Error, Exchange, serve_http}
use cascade_proxy.Proxy.Serve.Answers.{IsAnswer, serve_http-answers}

abbrev target : Url
target = record { scheme = ascii "http"; host = ascii "up"; path = ascii "/api/"; raw_query = [] }

abbrev request : Request
request = record {
  method = ascii "POST";
  scheme = [];
  url_host = [];
  path = ascii "/users";
  raw_query = [];
  host = ascii "front";
  header = (ascii "Accept", ascii "text/html" ∷ []) ∷ (ascii "Connection", ascii "close" ∷ []) ∷ [];
  remote_addr = ascii "10.0.0.1:80";
  request_uri = ascii "/users";
  body = some (ascii "name=x");
}

abbrev proxy : Proxy
proxy = record {
  cfg = default_config;
  target = target;
  cb = CircuitBreaker.new CircuitBreaker.default_config;
}

-- The world is the time, and the upstream answers with 503 until the time 1000.
abbrev clock : Clock ℕ
clock = record { now = λ w. w; sleep = λ d w. w + d }

abbrev exchange : OutRequest → ℕ → Result ℕ Upstream × ℕ
exchange out w = (
  ok (record { status = if ltb w 1000 then 503 else 200; header = []; body = ascii "ok" }),
  w + 1,
)

abbrev accepted : Text → Url → Option ℕ
accepted method url = none

abbrev describe : ℕ → Option (Error ℕ) → Text
describe n last = ascii "upstream error"

abbrev begin : Exchange ℕ
begin = record { ops = []; body = unread (ascii "name=x"); world = 5 }

serve_http-answers_example :
    (answer : List WriteOp) × IsAnswer describe answer
    × ((serve_http clock accepted exchange describe request proxy begin).1.ops ≡ [] ++ answer)
serve_http-answers_example = serve_http-answers clock accepted exchange describe request proxy begin

request-IsCanonical : IsCanonical request.header
unfolding canonical ascii lookup text_eq
request-IsCanonical = ((refl, (refl, tt)), (refl, (refl, tt)))

joined : single_joining_slash (ascii "/api/") (ascii "/users") ≡ ascii "/api/users"
unfolding single_joining_slash ascii
joined = refl
