-- ===== src/Middleware/Recording.antt =====
-- The recorders that retry.go and dedupe.go make and the source does not declare as these files use
-- them: an interface, on the calls that a handler has made on the recorder.
use cascade_proxy.Common.{ℕ, List, Text}
use cascade_proxy.Http.{Header, WriteOp}

-- The status, the body and the header that the recorder holds; what the wrapped writer was told
-- meanwhile, and what a flush tells it then.
pub record Recording : Type 0 where
  pub status : List WriteOp → ℕ
  pub body : List WriteOp → Text
  pub header : List WriteOp → Header
  pub passed : List WriteOp → List WriteOp
  pub flush : List WriteOp → List WriteOp
