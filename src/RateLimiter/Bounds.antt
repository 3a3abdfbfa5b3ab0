-- ===== src/RateLimiter/Bounds.antt =====
-- How much one bucket grants.
use native.Mathlib.Nat.{add-mul}
use cascade_proxy.Common.{ℕ, ◌+◌, ◌-◌, ◌*◌, ◌≤◌, ◌<◌, ◌≡◌, ap, ◌∙◌, Bool, true, false, arith}
use cascade_proxy.RateLimiter.{Config, Bucket, unit, full, take_token}

abbrev pub granted : Bool → ℕ
granted true = 1
granted false = 0

-- A bucket never holds more than the burst.
pub take_token-full :
    (cfg : Config) (now : ℕ) (b : Bucket) → (take_token cfg now b).1.tokens ≤ full cfg
unfolding take_token
take_token-full cfg now b = ground arith

-- What is granted and what is left were there before, or came in by the refill.
pub take_token-paid :
    (cfg : Config) (now : ℕ) (b : Bucket)
    → let (ok, b') = take_token cfg now b in
      (unit * granted ok + b'.tokens ≤ b.tokens + (now - b.last_refill) * cfg.requests_per_second)
      × (b'.last_refill ≡ now)
unfolding take_token
take_token-paid cfg now b = ground arith

-- What the bucket can grant until `stop`.
abbrev pub credit : Config → ℕ → Bucket → ℕ
credit cfg stop b = b.tokens + (stop - b.last_refill) * cfg.requests_per_second

pub take_token-credit :
    (cfg : Config) (now stop : ℕ) (b : Bucket)
    → b.last_refill ≤ now
    → now ≤ stop
    → let (ok, b') = take_token cfg now b in
      unit * granted ok + credit cfg stop b' ≤ credit cfg stop b
take_token-credit cfg now stop b h k =
    let (paid, stamped) = take_token-paid cfg now b in
    let whole : stop - b.last_refill ≡ (now - b.last_refill) + (stop - now) = omega arith in
    let split =
      ap (λ t. t * cfg.requests_per_second) whole
      ∙ add-mul (now - b.last_refill) (stop - now) cfg.requests_per_second in
    rw stamped (omega arith)

-- A bucket that holds a token grants the request.
pub take_token_grants :
    (cfg : Config) (now : ℕ) (b : Bucket)
    → 0 < cfg.burst
    → unit ≤ b.tokens + (now - b.last_refill) * cfg.requests_per_second
    → (take_token cfg now b).0 ≡ true
unfolding take_token
take_token_grants cfg now b h k = ground arith
