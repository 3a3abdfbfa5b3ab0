-- ===== src/Proxy/Serve/Attempts.antt =====
-- What reaches the upstream over the tries of one request.
use cascade_proxy.Common.{ℕ, ◌<◌, ◌≡◌, ◌⊎◌, List, [], ◌∷◌, ◌++◌, replicate, Result}
use cascade_proxy.Http.{Request, Clock}
use cascade_proxy.Proxy.Request.{Url, Body, spent, OutRequest, Upstream, out_url, out_header}
use cascade_proxy.Proxy.Serve.{Proxy, Exchange}

-- The request to the upstream that carries the given body.
abbrev pub out_request : Request → Url → Body → OutRequest
out_request r target body = record {
  method = r.method;
  url = out_url r target;
  header = out_header r;
  body = body;
}

-- The world with a log of the requests that the HTTP client was given, in their order.
abbrev pub Logged : Type 0 → Type 0
Logged W = W × List OutRequest

abbrev pub log_clock : {W : Type 0} → Clock W → Clock (Logged W)
log_clock c = record { now = λ w. c.now w.0; sleep = λ d w. (c.sleep d w.0, w.1) }

module _ {W E : Type 0} where
  abbrev pub log_exchange :
      (OutRequest → W → Result E Upstream × W)
      → OutRequest
      → Logged W
      → Result E Upstream × Logged W
  log_exchange exchange out w = let (resp, w') = exchange out w.0 in (resp, (w', w.1 ++ (out ∷ [])))

-- After at most `n` tries: nothing was sent and the body is as it was, or one request with that
-- body was sent and then, fewer than `n` times, the same request with a spent body.
abbrev pub Sent : {W : Type 0} → Request → Url → Body → ℕ → Exchange (Logged W) → Type 0
Sent r target body n x =
    ((x.world.1 ≡ []) × (x.body ≡ body))
    ⊎ ((m : ℕ) × (x.world.1 ≡ out_request r target body ∷ replicate m (out_request r target spent))
        × (x.body ≡ spent)
        × (m < n))
