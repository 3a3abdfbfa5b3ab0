-- ===== src/Middleware/Timeout.antt =====
-- internal/middleware/timeout.go and recovery.go: handlers that are late or panic. The handler that
-- the timeout starts has a goroutine of its own, and goes on when its deadline has passed, on the
-- same writer. Race is about how its calls and those of the middleware mix, Answers about what the
-- client receives. The log lines are left out.
pub mod Race
pub mod Answers
use cascade_proxy.Common.{
  ℕ, ◌≡◌, refl, sym, ap, ◌∙◌, Bool, List, [], ◌∷◌, ◌++◌, if◌then◌else◌, ascii, All, Bool-cases, inl,
  inr, append-nil, Option-cases,
}
use cascade_proxy.Http.{
  Header, Handler, Request, Response, WriteOp, write_header, http_error, response, header_after,
  apply_all, apply, start, finish, Client, send,
}
use cascade_proxy.Http.Errors.{sends, error_header, response-http_error}
use cascade_proxy.Middleware.Recorder
use cascade_proxy.Middleware.Recorder.{record_ops, status}
use cascade_proxy.Middleware.Recorder.Laws.{
  IsRealOp, record_ops-append, apply_all-append, record_ops-transparent,
}

pub record Config : Type 0 where
  pub timeout : ℕ

abbrev pub default_config : Config
default_config = record { timeout = 30_000_000_000 }

-- Whose call is next: the handler's, or that of the middleware.
pub data Turn : Type 0 where
  theirs ours : Turn

-- A handler in a goroutine: all that it does to its writer, whether its deadline passes before it
-- is done, and, if so, whose turn it is until the middleware returns.
pub record Started : Type 0 where
  pub ops : List WriteOp
  pub expired : Bool
  pub turns : List Turn

-- The world is as it is when the middleware returns.
abbrev pub Background : Type 0 → Type 0
Background W = Request → Header → W → Started × W

abbrev pub gateway_timeout : List WriteOp
gateway_timeout = http_error (ascii "504 Gateway Timeout") 504

-- The calls of the handler and those of the middleware by turns, until the middleware returns.
unfoldable pub weave : List Turn → List WriteOp → List WriteOp → List WriteOp
weave turns told [] = []
weave [] told (op ∷ rest) = op ∷ rest
weave (ours ∷ turns) told (op ∷ rest) = op ∷ weave turns told rest
weave (theirs ∷ turns) [] (op ∷ rest) = weave turns [] (op ∷ rest)
weave (theirs ∷ turns) (mine ∷ told) (op ∷ rest) = mine ∷ weave turns told (op ∷ rest)

-- The handler that NewTimeoutMiddleware makes, where `next cfg.timeout` has that deadline.
unfoldable pub with_timeout : {W : Type 0} → Config → (ℕ → Background W) → Handler W
unfolding weave
with_timeout cfg next r h w =
    let (run, w') = next cfg.timeout r h w in
    let (rec, told) = record_ops run.ops Recorder.new in
    (
      if run.expired
          then weave run.turns told gateway_timeout
          else told ++ (write_header (status rec) ∷ []),
      w',
    )

-- What a handler did before it was done or panicked, and whether it panicked.
abbrev pub CutOff : Type 0 → Type 0
CutOff W = Request → Header → W → (List WriteOp × Bool) × W

abbrev pub server_error : List WriteOp
server_error = http_error (ascii "Internal Server Error") 500

-- The handler that NewRecoveryMiddleware makes; `next` is cut off where it panics.
unfoldable pub recover : {W : Type 0} → CutOff W → Handler W
recover next r h w =
    let ((ops, panicked), w') = next r h w in (ops ++ (if panicked then server_error else []), w')

-- A handler that panics is answered by 500 only if it has sent nothing before.
pub recover-response :
    {W : Type 0} (next : CutOff W) (r : Request) (h : Header) (w : W)
    → let (ops, panicked) = (next r h w).0 in
      response h (recover next r h w).0 ≡ (
        if panicked
        then (if sends ops
            then record (response h ops) {
              body = (response h ops).body ++ (ascii "Internal Server Error" ++ (10 ∷ []));
            }
            else record {
              status = 500;
              header = error_header (header_after h ops);
              body = ascii "Internal Server Error" ++ (10 ∷ []);
            })
        else response h ops)
unfolding recover
recover-response next r h w = elim (Bool-cases (next r h w).0.1) [
  | inl panicked ↦
      rw panicked (response-http_error h (next r h w).0.0 (ascii "Internal Server Error") 500)
  | inr done ↦ rw done (ap (response h) (append-nil (next r h w).0.0))
]
