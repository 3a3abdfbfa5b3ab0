-- ===== src/Server/Timed.antt =====
-- No status 0 is written behind the timeout, if none is written in front of it.
use cascade_proxy.Common.{ℕ, ◌≢◌, refl, false, List, [], ◌∷◌, arith, All, Bool-cases, inl, inr}
use cascade_proxy.Http.{Header, Request, WriteOp}
use cascade_proxy.Middleware.Recorder
use cascade_proxy.Middleware.Recorder.{Recorder, record_ops, status}
use cascade_proxy.Middleware.Recorder.Laws.{IsRealOp}
use cascade_proxy.Middleware.Recorder.Orderly.{record_ops-IsRealOp, http_error-IsRealOp}
use cascade_proxy.Middleware.Timeout
use cascade_proxy.Middleware.Timeout.{
  Background, Turn, theirs, ours, weave, with_timeout, recover, gateway_timeout,
}
use cascade_proxy.Server.Gates.Writes.{append-IsRealOp}

status_real : (r : Recorder) → status r ≢ 0
unfolding status
status_real r e = ground arith

weave-IsRealOp :
    (turns : List Turn) (told ys : List WriteOp)
    → All IsRealOp told
    → All IsRealOp ys
    → All IsRealOp (weave turns told ys)
unfolding weave
weave-IsRealOp turns told [] real reals = tt
weave-IsRealOp [] told (op ∷ ys) real reals = reals
weave-IsRealOp (ours ∷ turns) told (op ∷ ys) real (this, reals) =
    (this, weave-IsRealOp turns told ys real reals)
weave-IsRealOp (theirs ∷ turns) [] (op ∷ ys) real reals =
    weave-IsRealOp turns [] (op ∷ ys) real reals
weave-IsRealOp (theirs ∷ turns) (mine ∷ told) (op ∷ ys) (this, real) reals =
    (this, weave-IsRealOp turns told (op ∷ ys) real reals)

-- What the timeout writes has no status 0 if what the handler does has none.
pub with_timeout-IsRealOp :
    {V : Type 0} (cfg : Timeout.Config) (next : ℕ → Background V) (r : Request) (h : Header) (v : V)
    → All IsRealOp (next cfg.timeout r h v).0.ops
    → All IsRealOp (with_timeout cfg next r h v).0
unfolding with_timeout
with_timeout-IsRealOp cfg next r h v real =
    let (run, v') = next cfg.timeout r h v in
    let told = record_ops-IsRealOp false run.ops Recorder.new refl real in
    elim (Bool-cases run.expired) [
      | inl late ↦ rw late (
          weave-IsRealOp run.turns (record_ops run.ops Recorder.new).1 gateway_timeout told
            (http_error-IsRealOp [] 504 (λ e. absurd (ground arith))))
      | inr done ↦ rw done (
          append-IsRealOp (record_ops run.ops Recorder.new).1 _ told
            (status_real (record_ops run.ops Recorder.new).0, tt))
    ]
