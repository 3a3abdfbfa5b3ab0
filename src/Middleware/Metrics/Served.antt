-- ===== src/Middleware/Metrics/Served.antt =====
-- The handler and the snapshot. The handler reads `rec.Status`, a method of the recorder, as a
-- field: it is taken to be the status that the method returns. The digits of numbers, and those of
-- the mean, are parameters.
use cascade_proxy.Common.{
  ℕ, ◌-◌, ◌≡◌, refl, sym, ap, ◌∙◌, List, [], ◌∷◌, ◌++◌, leb, ◌==◌, length, Text, ascii, All,
}
use cascade_proxy.Http.{
  Header, Handler, Request, Clock, set_header, write_header, write_body, Response, response,
  content_type,
}
use cascade_proxy.Middleware.Recorder
use cascade_proxy.Middleware.Recorder.{record_ops, status}
use cascade_proxy.Middleware.Recorder.Laws.{IsRealOp, record_ops-transparent}
use cascade_proxy.Middleware.Metrics.{
  Metrics, ℤ, signed, new_metrics, record_request, record_all, how_many, u64, record_all-totals,
}

-- Requests, each of which finds a header and a world of its own.
abbrev pub Requests : Type 0 → Type 0
Requests W = List (Request × Header × W)

module _ {W : Type 0} (clock : Clock W) where
  -- `Handler`
  unfoldable pub handle : Handler W → Handler (Metrics × W)
  handle next r h (m, w) =
      let (ops, w') = next r h w in
      let (rec, told) = record_ops ops Recorder.new in
      (told, (record_request (status rec) (clock.now w' - clock.now w) m, w'))

  unfoldable pub handle_all : Handler W → Requests W → Metrics → Metrics
  handle_all next [] m = m
  handle_all next ((r, h, w) ∷ reqs) m = handle_all next reqs (handle next r h (m, w)).1.0

  -- The statuses that the clients receive, with the times that the handler takes.
  abbrev pub received : Handler W → Requests W → List (ℕ × ℕ)
  received next [] = []
  received next ((r, h, w) ∷ reqs) =
      (
        (response h (handle next r h (new_metrics, w)).0).status,
        clock.now (next r h w).1 - clock.now w,
      )
      ∷ received next reqs

  handle_all-received :
      (next : Handler W) (reqs : Requests W) (m : Metrics)
      → All (λ q. All IsRealOp (next q.0 q.1 q.2).0) reqs
      → handle_all next reqs m ≡ record_all (received next reqs) m
  unfolding handle_all handle record_all
  handle_all-received next [] m real = refl
  handle_all-received next ((r, h, w) ∷ reqs) m (real, reals) =
      let (same, code, _, _) = record_ops-transparent h (next r h w).0 real in
      handle_all-received next reqs _ reals
      ∙ ap
          (λ s.
            record_all (received next reqs)
              (record_request s (clock.now (next r h w).1 - clock.now w) m))
          (code ∙ ap (λ (o : Response). o.status) (sym same))

  -- After any requests to a handler that writes no status 0 the counters are the number of
  -- requests, of those whose client received a status of 500 or more, and, for each status, of
  -- those whose client received that status, all modulo 2 ^ 64.
  pub handle_all-totals :
      (next : Handler W) (reqs : Requests W) (s : ℕ)
      → All (λ q. All IsRealOp (next q.0 q.1 q.2).0) reqs
      → let m = handle_all next reqs new_metrics in
        let got = received next reqs in
        (m.total_requests ≡ u64 (length got))
        × (m.total_errors ≡ u64 (how_many (leb 500) got))
        × (m.status_counts s ≡ u64 (how_many (λ t. t == s) got))
  handle_all-totals next reqs s real =
      rw (handle_all-received next reqs new_metrics real) (record_all-totals (received next reqs) s)

-- `ServeHTTP`: `mean ms total` are the digits of a mean, or of 0 where nothing was counted.
unfoldable pub serve_http : {W : Type 0} → (ℕ → Text) → (ℤ → ℕ → Text) → Handler (Metrics × W)
serve_http digits mean r h (m, w) = (
  set_header content_type (ascii "application/json")
      ∷ write_header 200
      ∷ write_body (
          ascii "{\"total_requests\":"
          ++ (digits m.total_requests
              ++ (ascii ",\"total_errors\":"
                  ++ (digits m.total_errors
                      ++ (ascii ",\"avg_latency_ms\":"
                          ++ (mean (signed m.total_duration) m.total_requests ++ ascii "}"))))))
      ∷ [],
  (m, w),
)
