-- ===== src/Server/Observed/Runs.antt =====
-- The metrics and the log after many requests.
use cascade_proxy.Common.{ℕ, ◌-◌, ◌≡◌, refl, sym, List, [], ◌∷◌, map, All, subst, length}
use cascade_proxy.Http.{Header, Handler, Request, Clock, Response, response}
use cascade_proxy.Middleware.Logged.{Log, Line, line_of, info}
use cascade_proxy.Middleware.Metrics.{Metrics, record_request, record_all}
use cascade_proxy.Middleware.Recorder.Laws.{IsRealOp}
use cascade_proxy.Server.Observed.{observed, observed-response}

-- Requests with the headers that their writers hold, and what else happens to the world before
-- each.
abbrev pub Requests : Type 0 → Type 0
Requests W = List (Request × Header × (W → W))

-- What the lines of a log, the oldest first, say to the metrics.
abbrev pub tallies : List Line → List (ℕ × ℕ)
tallies lines = map (λ (l : Line). (l.status, l.duration)) lines

-- A log on which these lines are put, one after another.
abbrev pub appended : List Line → Log → Log
appended [] log = log
appended (line ∷ lines) log = appended lines (line ∷ log)

module _ {W : Type 0} (clock : Clock W) (next : Handler W) where
  -- The responses, and what is left then.
  unfoldable pub serve_all :
      Requests W → Log × (Metrics × W) → List Response × (Log × (Metrics × W))
  serve_all [] s = ([], s)
  serve_all ((r, h, meanwhile) ∷ requests) (log, (m, w)) =
      let (ops, s) = observed clock next r h (log, (m, meanwhile w)) in
      let (rest, end) = serve_all requests s in (response h ops ∷ rest, end)

  -- No request is answered with a status 0.
  unfoldable pub AllReal : Requests W → W → Type 0
  AllReal [] w = Unit
  AllReal ((r, h, meanwhile) ∷ requests) w =
      All IsRealOp (next r h (meanwhile w)).0 × AllReal requests (next r h (meanwhile w)).1

  -- After any requests, none of which is answered with a status 0, the log has a line for each,
  -- with the status that its client has received, and the metrics are those of the lines.
  pub serve_all-logged :
      (requests : Requests W) (log : Log) (m : Metrics) (w : W)
      → AllReal requests w
      → let (got, (log', (m', w'))) = serve_all requests (log, (m, w)) in
        (lines : List Line) × (log' ≡ appended lines log)
        × (map (λ (l : Line). l.status) lines ≡ map (λ (a : Response). a.status) got)
        × (m' ≡ record_all (tallies lines) m)
  unfolding serve_all AllReal record_all
  serve_all-logged [] log m w real = ([], refl, refl, refl)
  serve_all-logged ((r, h, meanwhile) ∷ requests) log m w (real, reals) =
      let (told, line, counted, world) =
        observed-response clock next r h log m (meanwhile w) real in
      let (ops, w1) = next r h (meanwhile w) in
      let got = response h ops in
      let took = clock.now w1 - clock.now (meanwhile w) in
      let first : Line =
        line_of info r (record { status_code = got.status; written = length got.body }) took in
      let m1 = record_request got.status took m in
      let (lines, logged_, same, counted_) = serve_all-logged requests (first ∷ log) m1 w1 reals in
      subst
        (λ (s : Log × (Metrics × W)).
          let (rest, (log', (m', w'))) = serve_all requests s in
          (all_ : List Line) × (log' ≡ appended all_ log)
          × (map (λ (l : Line). l.status) all_
              ≡ (response h (observed clock next r h (log, (m, meanwhile w))).0).status
                ∷ map (λ (a : Response). a.status) rest)
          × (m' ≡ record_all (tallies all_) m))
        (λ i. (sym line i, (sym counted i, sym world i)))
        (first ∷ lines, logged_, (λ i. (sym told i).status ∷ same i), counted_)
