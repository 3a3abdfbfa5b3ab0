-- ===== src/Proxy/Serve/Answers.antt =====
-- What the client of the proxy is answered.
use cascade_proxy.Common.{
  ℕ, zero, suc, ◌+◌, ◌<◌, ◌≡◌, refl, ap, ◌∙◌, inl, inr, Option, none, some, List, ◌++◌, arith, leb,
  Text, Result, ok, err, Bool-cases,
}
use cascade_proxy.Http.{Request, WriteOp, Clock, http_error}
use cascade_proxy.CircuitBreaker.{execute}
use cascade_proxy.CircuitBreaker.Calls.{execute_rule}
use cascade_proxy.Proxy.Request.{Url, OutRequest, Upstream, build_request, copy_response}
use cascade_proxy.Proxy.Serve.{
  Proxy, Error, circuit_open, build, failed, upstream_status, unavailable, Exchange, deliver,
  send_out, forward, try_once, serve_from, serve_http,
}

-- What one try comes to: a response below 500 that is passed on whole, or an error and nothing
-- written.
abbrev Outcome : {E : Type 0} → List WriteOp → Option (Error E) → List WriteOp → Type 0
Outcome before none after =
    (resp : Upstream) × (resp.status < 500) × (after ≡ before ++ copy_response resp)
Outcome before (some e) after = after ≡ before

module _ {W E : Type 0} where
  deliver-Outcome :
      (resp : Result E Upstream) (x : Exchange W)
      → Outcome x.ops (deliver resp x).0 (deliver resp x).1.ops
  unfolding deliver
  deliver-Outcome (err e) x = refl
  deliver-Outcome (ok resp) x = elim (Bool-cases (leb 500 resp.status)) [
    | inl bad ↦ rw (bad, deliver) refl
    | inr good ↦ rw (good, deliver) (resp, ground arith, refl)
  ]

  send_out-Outcome :
      (exchange : OutRequest → W → Result E Upstream × W) (out : Result E OutRequest)
      (x : Exchange W)
      → Outcome x.ops (send_out exchange out x).0 (send_out exchange out x).1.ops
  unfolding send_out
  send_out-Outcome exchange (err e) x = refl
  send_out-Outcome exchange (ok out) x = deliver-Outcome (exchange out x.world).0 _

-- The answer that the proxy writes: an upstream's response with a status below 500, or one of its
-- own two errors.
pub data IsAnswer {E : Type 0} (describe : ℕ → Option (Error E) → Text)
    : List WriteOp → Type 0 where
  passed_on : (resp : Upstream) → resp.status < 500 → IsAnswer describe (copy_response resp)
  refusal : IsAnswer describe unavailable
  bad_gateway :
      (n : ℕ) (last : Option (Error E)) → IsAnswer describe (http_error (describe n last) 502)

module _ {W E : Type 0} (clock : Clock W) (refused : Text → Url → Option E)
    (exchange : OutRequest → W → Result E Upstream × W)
    (describe : ℕ → Option (Error E) → Text) where
  attempt-Outcome :
      (r : Request) (p : Proxy) (x : Exchange W)
      → let tried =
          execute
            (λ y. clock.now y.world)
            circuit_open
            (forward clock refused exchange describe r p.target)
            p.cb
            x in
        Outcome x.ops tried.0 tried.2.ops
  unfolding forward
  attempt-Outcome r p x =
      execute_rule (λ y. clock.now y.world) circuit_open
        (forward clock refused exchange describe r p.target)
        (λ result y. Outcome x.ops result y.ops) p.cb x refl
        (send_out-Outcome exchange (build_request refused r x.body p.target) x)

  try_once-Outcome :
      (r : Request) (p : Proxy) (attempt : ℕ) (x : Exchange W)
      → let (result, cb, y) = try_once clock refused exchange describe r p attempt x in
        Outcome x.ops result y.ops
  unfolding try_once
  try_once-Outcome r p zero x = attempt-Outcome r p x
  try_once-Outcome r p (suc n) x =
      attempt-Outcome r p (record x { world = clock.sleep p.cfg.retry_delay x.world })

  -- The answer stands behind what was written before.
  abbrev Answers : List WriteOp → Proxy × Exchange W → Type 0
  Answers before (p, x) =
      (answer : List WriteOp) × IsAnswer describe answer × (x.ops ≡ before ++ answer)

  serve_step :
      (rounds attempt : ℕ) (last : Option (Error E)) (r : Request) (p : Proxy) (x : Exchange W)
      (result : Option (Error E))
      → let tried = try_once clock refused exchange describe r p attempt x in
        tried.0 ≡ result
        → Outcome x.ops result tried.2.ops
        → ((last' : Option (Error E))
            → Answers tried.2.ops (
                serve_from clock refused exchange describe rounds
                  (attempt + 1)
                  last'
                  r
                  (record p { cb = tried.1 })
                  tried.2))
        → Answers x.ops (serve_from clock refused exchange describe (suc rounds) attempt last r p x)
  unfolding serve_from
  serve_step rounds attempt last r p x none e (resp, good, same) again =
      rw (e, serve_from) (copy_response resp, passed_on resp good, same)
  serve_step rounds attempt last r p x (some circuit_open) e same again =
      rw (e, serve_from) (unavailable, refusal, ap (λ ops. ops ++ unavailable) same)
  serve_step rounds attempt last r p x (some (build b)) e same again =
      let (answer, is_answer, end) = again (some (build b)) in
      rw (e, serve_from) (answer, is_answer, end ∙ ap (λ ops. ops ++ answer) same)
  serve_step rounds attempt last r p x (some (failed b)) e same again =
      let (answer, is_answer, end) = again (some (failed b)) in
      rw (e, serve_from) (answer, is_answer, end ∙ ap (λ ops. ops ++ answer) same)
  serve_step rounds attempt last r p x (some (upstream_status n)) e same again =
      let (answer, is_answer, end) = again (some (upstream_status n)) in
      rw (e, serve_from) (answer, is_answer, end ∙ ap (λ ops. ops ++ answer) same)

  serve_from-Answers :
      (rounds attempt : ℕ) (last : Option (Error E)) (r : Request) (p : Proxy) (x : Exchange W)
      → Answers x.ops (serve_from clock refused exchange describe rounds attempt last r p x)
  unfolding serve_from
  serve_from-Answers zero attempt last r p x = (_, bad_gateway p.cfg.max_retries last, refl)
  serve_from-Answers (suc rounds) attempt last r p x =
      let tried = try_once clock refused exchange describe r p attempt x in
      serve_step rounds attempt last r p x tried.0 refl (try_once-Outcome r p attempt x)
        λ last'. serve_from-Answers rounds (attempt + 1) last' r (record p { cb = tried.1 }) tried.2

  -- Whatever the upstream does, the proxy answers once: it writes one answer behind what was
  -- written before.
  pub serve_http-answers :
      (r : Request) (p : Proxy) (x : Exchange W)
      → (answer : List WriteOp) × IsAnswer describe answer
        × ((serve_http clock refused exchange describe r p x).1.ops ≡ x.ops ++ answer)
  unfolding serve_http
  serve_http-answers r p x = serve_from-Answers (p.cfg.max_retries + 1) 0 none r p x
