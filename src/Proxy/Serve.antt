-- ===== src/Proxy/Serve.antt =====
-- internal/proxy/proxy.go. A request is tried through the circuit breaker until a try succeeds, the
-- circuit is open or the retries are used up. `W` is the world: the upstream and the clock. The
-- HTTP client is the parameter `exchange`, http.NewRequestWithContext is `refused`, and `describe`
-- is the text of the last answer, made by `fmt.Sprintf` from the number of retries and the error.
pub mod Answers
pub mod Rule
pub mod Attempts
use cascade_proxy.Common.{
  ℕ, zero, suc, ◌+◌, Option, none, some, List, [], ◌++◌, Text, ascii, Result, ok, err, leb,
  if◌then◌else◌,
}
use cascade_proxy.Http.{Request, WriteOp, Clock, http_error}
use cascade_proxy.CircuitBreaker
use cascade_proxy.CircuitBreaker.{Breaker, execute}
use cascade_proxy.Proxy.Request.{
  Url, Body, spent, OutRequest, Upstream, build_request, copy_response,
}

pub record Config : Type 0 where
  pub target_url : Text
  pub max_retries : ℕ
  pub retry_delay : ℕ
  pub request_timeout : ℕ
  pub cb_config : CircuitBreaker.Config

abbrev pub default_config : Config
default_config = record {
  target_url = ascii "";
  max_retries = 3;
  retry_delay = 200_000_000;
  request_timeout = 10_000_000_000;
  cb_config = CircuitBreaker.default_config;
}

-- `p.client` is the parameter `exchange` below; `reverseP` is never set or used.
pub record Proxy : Type 0 where
  pub cfg : Config
  pub target : Url
  pub cb : Breaker

-- `New`, with `url.Parse` as a parameter; the error is wrapped.
unfoldable pub new : {E : Type 0} → (Text → Result E Url) → Config → Result E Proxy
new parse cfg = elim (parse cfg.target_url) [
  | err e ↦ err e
  | ok target ↦ ok (record { cfg = cfg; target = target; cb = CircuitBreaker.new cfg.cb_config })
]

pub data Error (E : Type 0) : Type 0 where
  circuit_open : Error E
  build failed : E → Error E
  upstream_status : ℕ → Error E

abbrev pub unavailable : List WriteOp
unavailable = http_error (ascii "service unavailable (circuit open)") 503

-- What a try acts on: what has been written to the client, the request's body, and the world.
pub record Exchange (W : Type 0) : Type 0 where
  pub ops : List WriteOp
  pub body : Body
  pub world : W

module _ {W E : Type 0} where
  -- the end of `forward`, once the client has answered
  unfoldable pub deliver : Result E Upstream → Exchange W → Option (Error E) × Exchange W
  deliver (err e) x = (some (failed e), x)
  deliver (ok resp) x =
      if leb 500 resp.status
      then (some (upstream_status resp.status), x)
      else (none, record x { ops = x.ops ++ copy_response resp })

  send_out :
      (OutRequest → W → Result E Upstream × W)
      → Result E OutRequest
      → Exchange W
      → Option (Error E) × Exchange W
  unfolding deliver
  send_out exchange (err e) x = (some (build e), x)
  send_out exchange (ok out) x =
      let (resp, w) = exchange out x.world in deliver resp (record x { body = spent; world = w })

module _ {W E : Type 0} (clock : Clock W) (refused : Text → Url → Option E)
    (exchange : OutRequest → W → Result E Upstream × W)
    (describe : ℕ → Option (Error E) → Text) where
  -- The HTTP client reads and closes the body of the request that it is given.
  unfoldable pub forward : Request → Url → Exchange W → Option (Error E) × Exchange W
  unfolding send_out
  forward r target x = send_out exchange (build_request refused r x.body target) x

  -- the pause before every attempt but the first
  abbrev pub pause : ℕ → ℕ → Exchange W → Exchange W
  pause zero delay x = x
  pause (suc _) delay x = record x { world = clock.sleep delay x.world }

  -- one round of the loop, up to the test of the error
  unfoldable pub try_once :
      Request → Proxy → ℕ → Exchange W → Option (Error E) × Breaker × Exchange W
  unfolding forward
  try_once r p attempt x =
      execute (λ y. clock.now y.world) circuit_open (forward r p.target) p.cb
        (pause attempt p.cfg.retry_delay x)

  abbrev pub give_up : ℕ → Option (Error E) → Exchange W → Exchange W
  give_up retries last x = record x { ops = x.ops ++ http_error (describe retries last) 502 }

  -- The loop of `ServeHTTP`, with the rounds that are left.
  unfoldable pub serve_from :
      ℕ → ℕ → Option (Error E) → Request → Proxy → Exchange W → Proxy × Exchange W
  serve_from zero attempt last r p x = (p, give_up p.cfg.max_retries last x)
  serve_from (suc rounds) attempt last r p x =
      let (result, cb, y) = try_once r p attempt x in
      let p' = record p { cb = cb } in
      elim result [
        | none ↦ (p', y)
        | some circuit_open ↦ (p', record y { ops = y.ops ++ unavailable })
        | some (build e) ↦ serve_from rounds (attempt + 1) (some (build e)) r p' y
        | some (failed e) ↦ serve_from rounds (attempt + 1) (some (failed e)) r p' y
        | some (upstream_status s) ↦
            serve_from rounds (attempt + 1) (some (upstream_status s)) r p' y
      ]

  unfoldable pub serve_http : Request → Proxy → Exchange W → Proxy × Exchange W
  unfolding serve_from
  serve_http r p x = serve_from (p.cfg.max_retries + 1) 0 none r p x
