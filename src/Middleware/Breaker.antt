-- ===== src/Middleware/Breaker.antt =====
-- internal/middleware/circuitbreaker.go. The log line is left out; the world of the breaker's call
-- is the writer's calls so far and the rest of the world.
use cascade_proxy.Common.{
  ℕ, ◌≡◌, ◌∙◌, ap, refl, Bool, true, false, List, [], ◌++◌, arith, Option, none, some, leb, ltb,
  if◌then◌else◌, ascii, Bool-cases, inl, inr, All, subst, sym,
}
use cascade_proxy.Http.{Header, Handler, WriteOp, Clock, Request, http_error, response}
use cascade_proxy.CircuitBreaker.{Breaker, admit, settle, execute, is_ok}
use cascade_proxy.Middleware.Recorder.{record_ops, status}
use cascade_proxy.Middleware.Recorder
use cascade_proxy.Middleware.Recorder.Orderly.{record_ops-IsRealOp, http_error-IsRealOp}
use cascade_proxy.Middleware.Recorder.Laws.{IsRealOp, record_ops-transparent}

pub data Error : Type 0 where
  circuit_open : Error
  upstream_error : ℕ → Error

abbrev pub is_open : Error → Bool
is_open circuit_open = true
is_open (upstream_error _) = false

abbrev pub rejection : List WriteOp
rejection = http_error (ascii "service unavailable: circuit breaker open") 503

module _ {W : Type 0} (clock : Clock W) where
  -- The function that `Execute` is given.
  unfoldable pub call :
      Handler W → Request → Header → List WriteOp × W → Option Error × (List WriteOp × W)
  call next r h (ops, w) =
      let (done, w') = next r h w in
      let (rec, told) = record_ops done Recorder.new in
      (if leb 500 (status rec) then some (upstream_error (status rec)) else none, (ops ++ told, w'))

  after_call : Option Error → List WriteOp → List WriteOp
  after_call none ops = ops
  after_call (some e) ops = if is_open e then ops ++ rejection else ops

  -- The handler that `Wrap` makes.
  unfoldable pub wrap : Handler W → Handler (Breaker × W)
  unfolding call after_call
  wrap next r h (cb, w) =
      let (e, cb', (ops, w')) =
        execute (λ x. clock.now x.1) circuit_open (call next r h) cb ([], w) in
      (after_call e ops, (cb', w'))

  outcome :
      (s : ℕ) (ops : List WriteOp)
      → let e = if leb 500 s then some (upstream_error s) else none in
        (after_call e ops ≡ ops) × (is_ok e ≡ ltb s 500)
  unfolding after_call
  outcome s ops = ground arith

  -- While the breaker refuses calls, a request is answered 503 and the next handler is not asked.
  -- Otherwise the client receives what it would without the breaker, and the breaker records a
  -- failure exactly if the status that the client receives is 500 or more. The next handler is one
  -- that writes no status 0 for this request.
  pub wrap_lem :
      (next : Handler W) (r : Request) (h : Header) (cb : Breaker) (w : W)
      → All IsRealOp (next r h w).0
      → let (ops, (cb', w')) = wrap next r h (cb, w) in
        let (allowed, cb1) = admit (clock.now w) cb in
        let answer = response h (next r h w).0 in
        (response h ops ≡ (if allowed then answer else response h rejection))
        × (w' ≡ (if allowed then (next r h w).1 else w))
        × (cb' ≡ (
            if allowed then settle (clock.now (next r h w).1) (ltb answer.status 500) cb1 else cb1))
  unfolding wrap execute
  wrap_lem next r h cb w real =
      let (same, same_status, _, _) = record_ops-transparent h (next r h w).0 real in
      elim (Bool-cases (admit (clock.now w) cb).0) [
        | inl allowed ↦
            let (kept, told) =
              outcome (status (record_ops (next r h w).0 Recorder.new).0)
                (record_ops (next r h w).0 Recorder.new).1 in
            rw (allowed, execute)
              (
                ap (response h) kept ∙ same,
                refl,
                ap (λ ok. settle (clock.now (next r h w).1) ok (admit (clock.now w) cb).1)
                    (told ∙ ap (λ s. ltb s 500) same_status),
              )
        | inr refused ↦ rw (refused, execute) (refl, refl, refl)
      ]

  -- With the breaker no status 0 is written either.
  pub wrap-IsRealOp :
      (next : Handler W) (r : Request) (h : Header) (cb : Breaker) (w : W)
      → All IsRealOp (next r h w).0
      → All IsRealOp (wrap next r h (cb, w)).0
  unfolding wrap execute after_call
  wrap-IsRealOp next r h cb w real = elim (Bool-cases (admit (clock.now w) cb).0) [
    | inl allowed ↦
        let (rec, told) = record_ops (next r h w).0 Recorder.new in
        let kept = (outcome (status rec) told).0 in
        rw (allowed, execute)
          (subst (All IsRealOp) (sym kept)
            (record_ops-IsRealOp false (next r h w).0 Recorder.new refl real))
    | inr refused ↦ rw (refused, execute) (http_error-IsRealOp [] 503 (λ e. absurd (ground arith)))
  ]
