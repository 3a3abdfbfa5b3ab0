-- ===== src/Server/Observed.antt =====
-- What the metrics and the logger of the stack note of a request.
pub mod Runs
use cascade_proxy.Common.{◌-◌, ◌≡◌, refl, ap, ◌∙◌, false, ◌∷◌, All, length}
use cascade_proxy.Http.{Header, Handler, Request, Clock, Response, response}
use cascade_proxy.Middleware.Logged.{Log, info, line_of, logger}
use cascade_proxy.Middleware.Logged.Lines.{recorded}
use cascade_proxy.Middleware.Metrics.{Metrics, record_request}
use cascade_proxy.Middleware.Metrics.Served.{handle}
use cascade_proxy.Middleware.Recorder
use cascade_proxy.Middleware.Recorder.{record_ops, status}
use cascade_proxy.Middleware.Recorder.Laws.{IsRealOp, record_ops-transparent}
use cascade_proxy.Middleware.Recorder.Orderly.{record_ops-IsOrderly}
use cascade_proxy.Server.{behind}

module _ {W : Type 0} (clock : Clock W) (next : Handler W) where
  -- The logger around the metrics, as in the stack.
  abbrev pub observed : Handler (Log × (Metrics × W))
  observed = logger (behind clock) (handle clock next)

  -- For a handler that writes no status 0, whatever its order, the client receives what it would
  -- without the metrics and the logger, and both note this response: the metrics its status, and
  -- the line its status and the number of bytes of its body.
  pub observed-response :
      (r : Request) (h : Header) (log : Log) (m : Metrics) (w : W)
      → All IsRealOp (next r h w).0
      → let (ops, (log', (m', w'))) = observed r h (log, (m, w)) in
        let got = response h (next r h w).0 in
        let took = clock.now (next r h w).1 - clock.now w in
        (response h ops ≡ got)
        × (log'
            ≡ line_of info r (record { status_code = got.status; written = length got.body }) took
              ∷ log)
        × (m' ≡ record_request got.status took m)
        × (w' ≡ (next r h w).1)
  unfolding logger handle
  observed-response r h log m w real =
      let ops = (next r h w).0 in
      let told = (record_ops ops Recorder.new).1 in
      let took = clock.now (next r h w).1 - clock.now w in
      let (same, code, _, _) = record_ops-transparent h ops real in
      let noted = recorded h told (record_ops-IsOrderly false ops Recorder.new refl) in
      (
        same,
        ap (λ s. line_of info r s took ∷ log)
            (noted
              ∙ ap (λ (a : Response). record { status_code = a.status; written = length a.body })
                  same),
        ap (λ s. record_request s took m) code,
        refl,
      )
