-- ===== src/Middleware/Failover.antt =====
-- internal/middleware/failover.go. The recorder's `status` and `flush` are not declared in the
-- source: they are an interface, on what a handler did to the recorder. url.Parse is a parameter.
-- The field Timeout is never read. The log lines are left out, and so is what becomes of the body,
-- whose reader all backends share.
pub mod Cascade
use cascade_proxy.Common.{
  ℕ, ◌≡◌, Bool, true, false, List, [], ◌∷◌, Option, none, some, any, ◌==◌, if◌then◌else◌, Text,
  ascii,
}
use cascade_proxy.Http.{Header, Handler, WriteOp, Request, http_error}

pub record Config : Type 0 where
  pub backends : List Text
  pub retryable_statuses : List ℕ
  pub timeout : ℕ

abbrev pub default_config : Config
default_config = record {
  backends = [];
  retryable_statuses = 502 ∷ 503 ∷ 504 ∷ [];
  timeout = 5_000_000_000;
}

-- The recorder behind newBufferedRecorder: the status that it holds after a handler's calls, and
-- what `flush` does to the client's writer.
pub record Buffered : Type 0 where
  pub status : List WriteOp → ℕ
  pub flush : List WriteOp → List WriteOp

-- The scheme and the host of a parsed backend.
pub record Base : Type 0 where
  pub scheme : Text
  pub host : Text

abbrev pub retarget : Base → Request → Request
retarget base r = record r { scheme = base.scheme; url_host = base.host; host = base.host }

abbrev pub unavailable : List WriteOp
unavailable = http_error (ascii "all backends unavailable") 502

-- retryable[status]
abbrev pub is_retryable : Config → ℕ → Bool
is_retryable cfg status = any (λ s. s == status) cfg.retryable_statuses

module _ {W : Type 0} (rec : Buffered) (parse : Text → Option Base) (next : Handler W) where
  -- The loop over the backends. The recorder's header map is its own, and empty.
  unfoldable pub try_backends : Config → List Text → Request → W → List WriteOp × W
  try_backends cfg [] r w = (unavailable, w)
  try_backends cfg (backend ∷ backends) r w = elim (parse backend) [
    | none ↦ try_backends cfg backends r w
    | some base ↦
        let (ops, w') = next (retarget base r) [] w in
        let rest = try_backends cfg backends r w' in
        if is_retryable cfg (rec.status ops) then rest else (rec.flush ops, w')
  ]

  -- The handler that NewFailoverMiddleware makes.
  unfoldable pub handle : Config → Handler W
  unfolding try_backends
  handle cfg r h w = try_backends cfg cfg.backends r w
