-- ===== src/Server/Stack.antt =====
-- The stack as a whole, from the logger to the upstream.
use cascade_proxy.Common.{
  ℕ, ◌-◌, ◌≡◌, refl, sym, ap, ◌∙◌, false, List, ◌∷◌, arith, length, Text, ascii, contains, All,
  append-nil, subst,
}
use cascade_proxy.Http.{Header, Handler, Request, Clock, Response, response, get}
use cascade_proxy.CircuitBreaker.{Breaker}
use cascade_proxy.RateLimiter.{RateLimiter}
use cascade_proxy.Middleware.Cache.{ResponseCache}
use cascade_proxy.Middleware.Compress
use cascade_proxy.Middleware.Compress.{Gzip}
use cascade_proxy.Middleware.Logged.{Log, info, line_of}
use cascade_proxy.Middleware.Metrics.{Metrics, record_request}
use cascade_proxy.Middleware.Recorder.Laws.{IsRealOp}
use cascade_proxy.Middleware.Timeout
use cascade_proxy.Middleware.Timeout.{
  Background, Turn, theirs, ours, weave, with_timeout, recover, gateway_timeout,
}
use cascade_proxy.Middleware.Timeout.Answers.{with_timeout-response}
use cascade_proxy.Server.{behind, Inner, Outer, Deadline, authorized, timed, recovered, stack}
use cascade_proxy.Server.Timed.{with_timeout-IsRealOp}
use cascade_proxy.Server.Observed.{observed-response}
use cascade_proxy.Server.Gates.{verdict, answer, effect, held}
use cascade_proxy.Server.Gates.Served.{authorized-Gated}
use cascade_proxy.Server.Gates.Kept.{authorized-AreOk}
use cascade_proxy.Middleware.Cache.Ok.{AreOk, get-AreOk}

module _ {W : Type 0} (clock : Clock W) (request_uri : Request → Text) (choice : W → ℕ)
    (upstream : Handler W) {S : Type 0} (gzip : Gzip S) (deadline : Deadline (Inner W))
    (keys : List Text) where
  -- compression and all behind it
  abbrev pub compressed : Handler (Inner W)
  compressed =
      Compress.handle gzip Compress.default_config
        (authorized clock request_uri choice upstream keys)

  -- How these fare with a request and its deadline.
  abbrev pub by_deadline : Background (Inner W)
  by_deadline = deadline.run compressed Timeout.default_config.timeout

  abbrev whole : Handler (Outer W)
  whole = stack clock request_uri choice upstream gzip deadline keys

  abbrev quiet : Handler (Inner W)
  quiet = recovered clock request_uri choice upstream gzip deadline keys

  -- The recovery adds nothing.
  recovered_lem :
      (r : Request) (h : Header) (v : Inner W)
      → quiet r h v ≡ with_timeout Timeout.default_config (deadline.run compressed) r h v
  unfolding recovered recover timed
  recovered_lem r h v =
      let (ops, v') = with_timeout Timeout.default_config (deadline.run compressed) r h v in
      λ i. (append-nil ops i, v')

  -- A handler that is in time is answered as if it were alone.
  recovered_quick :
      (r : Request) (h : Header) (v : Inner W)
      → All IsRealOp (compressed r h v).0
      → (by_deadline r h v).0.expired ≡ false
      → (response h (quiet r h v).0 ≡ response h (compressed r h v).0)
        × ((quiet r h v).1 ≡ (compressed r h v).1)
        × All IsRealOp (quiet r h v).0
  recovered_quick r h v real quick =
      let (all_, left) = deadline.in_time compressed Timeout.default_config.timeout r h v quick in
      let real' : All IsRealOp (by_deadline r h v).0.ops = rw all_ real in
      let same =
        with_timeout-response Timeout.default_config (deadline.run compressed) r h v real' in
      rw (recovered_lem r h v) (
        (rw quick at same) ∙ ap (response h) all_,
        (unfold with_timeout in left),
        with_timeout-IsRealOp Timeout.default_config (deadline.run compressed) r h v real',
      )

  compressed_plain :
      (r : Request) (h : Header) (v : Inner W)
      → contains (get (ascii "Accept-Encoding") r.header) (ascii "gzip") ≡ false
      → compressed r h v ≡ authorized clock request_uri choice upstream keys r h v
  unfolding Compress.handle
  compressed_plain r h v plain = rw plain refl

  pub compressed_real :
      (r : Request) (h : Header) (c : ResponseCache) (limiter : RateLimiter) (cb : Breaker) (w : W)
      → All IsRealOp (upstream r (held keys r h) w).0
      → AreOk c.entries
      → contains (get (ascii "Accept-Encoding") r.header) (ascii "gzip") ≡ false
      → All IsRealOp (compressed r h (c, (limiter, (cb, w)))).0
  compressed_real r h c limiter cb w real ok plain =
      let hits = (get-AreOk (clock.now w) (request_uri r) c ok).1 in
      rw (compressed_plain r h (c, (limiter, (cb, w))) plain)
        (authorized-Gated clock request_uri choice upstream keys r h c limiter cb w real
          (λ e found zero_. let good = hits e found in absurd (omega arith))).real

  -- What is noted of a request is the answer that its client receives.
  stack_notes :
      (r : Request) (h : Header) (log : Log) (m : Metrics) (v : Inner W) (got : Response)
      → All IsRealOp (quiet r h v).0
      → response h (quiet r h v).0 ≡ got
      → let (ops, (log', (m', v'))) = whole r h (log, (m, v)) in
        let took = clock.now v'.1.1.1 - clock.now v.1.1.1 in
        (response h ops ≡ got)
        × (log'
            ≡ line_of info r (record { status_code = got.status; written = length got.body }) took
              ∷ log)
        × (m' ≡ record_request got.status took m)
        × (v' ≡ (quiet r h v).1)
  unfolding stack
  stack_notes r h log m v got real same =
      let (told, line, counted, world) =
        observed-response (behind (behind (behind clock))) quiet r h log m v real in
      let back = sym world in
      let noted : Response → Inner W → Log = λ a x.
        line_of info r (record { status_code = a.status; written = length a.body })
          (clock.now x.1.1.1 - clock.now v.1.1.1)
        ∷ log in
      let tallied : Response → Inner W → Metrics =
        λ a x. record_request a.status (clock.now x.1.1.1 - clock.now v.1.1.1) m in
      (
        told ∙ same,
        line ∙ (λ i. noted (same i) (back i)),
        counted ∙ (λ i. tallied (same i) (back i)),
        world,
      )

  -- Of a request that asks for no compression and whose deadline does not pass, where the upstream
  -- writes no status 0 for it and the cache holds only answers with the status 200: without a valid
  -- key it is answered 401. With one, a preflight request is answered by CORS, and any other, on
  -- the header that CORS has set, from the cache if it is a GET that is found there, else by 429 if
  -- the limiter refuses it, else by 503 if the breaker does, and else by the upstream. Only a
  -- request that comes to the limiter takes a token, only one that comes to the breaker changes it,
  -- which counts the status that the client receives, and only one that passes both is sent to the
  -- upstream. The cache still holds only answers with the status 200, the metrics count the status
  -- that the client receives, and the log has a line with this status and the number of bytes.
  pub stack-verdict :
      (r : Request) (h : Header) (log : Log) (m : Metrics) (c : ResponseCache)
      (limiter : RateLimiter) (cb : Breaker) (w : W)
      → All IsRealOp (upstream r (held keys r h) w).0
      → AreOk c.entries
      → contains (get (ascii "Accept-Encoding") r.header) (ascii "gzip") ≡ false
      → (by_deadline r h (c, (limiter, (cb, w)))).0.expired ≡ false
      → let (ops, (log', (m', (c', left)))) =
          stack clock request_uri choice upstream gzip deadline keys r h
            (log, (m, (c, (limiter, (cb, w))))) in
        let v = verdict clock request_uri choice upstream keys r (c, (limiter, (cb, w))) in
        let got = answer clock request_uri choice upstream r (held keys r h) w v in
        let took = clock.now left.1.1 - clock.now w in
        (response h ops ≡ got)
        × (left ≡ effect clock request_uri choice upstream r (held keys r h) limiter cb w v)
        × (log'
            ≡ line_of info r (record { status_code = got.status; written = length got.body }) took
              ∷ log)
        × (m' ≡ record_request got.status took m)
        × AreOk c'.entries
  stack-verdict r h log m c limiter cb w real ok plain quick =
      let v : Inner W = (c, (limiter, (cb, w))) in
      let hits = (get-AreOk (clock.now w) (request_uri r) c ok).1 in
      let gated =
        authorized-Gated clock request_uri choice upstream keys r h c limiter cb w real
          (λ e found zero_. let good = hits e found in absurd (omega arith)) in
      let all_ = compressed_plain r h v plain in
      let (same, left, real') = recovered_quick r h v (rw all_ gated.real) quick in
      let (told, line, counted, world) =
        stack_notes r h log m v _ real' (same ∙ ap (λ x. response h x.0) all_ ∙ gated.answered) in
      let end = world ∙ left ∙ ap (λ x. x.1) all_ in
      (
        told,
        ap (λ (x : Inner W). x.1) end ∙ gated.changed,
        line,
        counted,
        subst (λ (x : Inner W). AreOk x.0.entries) (sym end)
            (authorized-AreOk clock request_uri choice upstream keys r h c (limiter, (cb, w)) ok),
      )
