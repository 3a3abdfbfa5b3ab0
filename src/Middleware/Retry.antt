-- ===== src/Middleware/Retry.antt =====
-- internal/middleware/retry.go. The recorder is an interface. A panic is `none`: with no attempt at
-- all the recorder that is flushed is nil. The log line is left out.
pub mod Attempts
use cascade_proxy.Common.{
  ℕ, zero, suc, Bool, true, false, not, Option, none, some, List, [], ◌∷◌, ◌++◌, any, ◌==◌,
  if◌then◌else◌,
}
use cascade_proxy.Http.{Header, Handler, Request, WriteOp, Clock, header_after}
use cascade_proxy.Middleware.Recording.{Recording}

pub record Config : Type 0 where
  pub max_attempts : ℕ
  pub delay : ℕ
  pub retryable_status : List ℕ

abbrev pub default_config : Config
default_config = record {
  max_attempts = 3;
  delay = 100_000_000;
  retryable_status = 502 ∷ 503 ∷ 504 ∷ [];
}

-- retryable[status]
abbrev pub is_retryable : Config → ℕ → Bool
is_retryable cfg status = any (λ s. s == status) cfg.retryable_status

module _ {W : Type 0} (clock : Clock W) (rec : Recording) (cfg : Config) (next : Handler W) where
  -- `n` attempts are left behind this one.
  unfoldable pub attempt : ℕ → Handler W
  attempt zero r h w = let (ops, w') = next r h w in (rec.passed ops ++ rec.flush ops, w')
  attempt (suc n) r h w =
      let (ops, w') = next r h w in
      let (rest, w_end) =
        attempt n r (header_after h (rec.passed ops)) (clock.sleep cfg.delay w') in
      if not (is_retryable cfg (rec.status ops))
      then (rec.passed ops ++ rec.flush ops, w')
      else (rec.passed ops ++ rest, w_end)

  unfoldable pub attempts : ℕ → Request → Header → W → Option (List WriteOp × W)
  unfolding attempt
  attempts zero r h w = none
  attempts (suc n) r h w = some (attempt n r h w)

  -- The handler that NewRetryMiddleware makes.
  unfoldable pub handle : Request → Header → W → Option (List WriteOp × W)
  unfolding attempts
  handle r h w = attempts cfg.max_attempts r h w
