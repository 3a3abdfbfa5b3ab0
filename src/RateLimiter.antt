-- ===== src/RateLimiter.antt =====
-- internal/ratelimiter/ratelimiter.go: a token bucket for each client key. Times are nanoseconds.
-- Tokens are counted in thousand-millionths (`unit` of them are one token) and the rate is a whole
-- number of tokens a second, so that the refill `elapsed * rate` is exact: the rounding of the
-- `float64` arithmetic is not modelled. The mutexes make `allow` atomic for its key.
pub mod Bounds
pub mod Keys
pub mod Service
pub mod Handler
pub mod Served
mod Examples
use cascade_proxy.Common.{
  ℕ, ◌+◌, ◌-◌, ◌*◌, Bool, true, false, Option, none, some, [], ltb, if◌then◌else◌, Text, Dict,
  lookup, insert, or_else,
}

-- One token.
abbrev pub unit : ℕ
unit = 1_000_000_000

pub record Config : Type 0 where
  pub requests_per_second : ℕ
  pub burst : ℕ

abbrev pub default_config : Config
default_config = record { requests_per_second = 100; burst = 20 }

pub record Bucket : Type 0 where
  pub tokens : ℕ
  pub last_refill : ℕ

pub record RateLimiter : Type 0 where
  pub cfg : Config
  pub buckets : Dict Bucket

unfoldable pub new : Config → RateLimiter
new cfg = record { cfg = cfg; buckets = [] }

abbrev pub full : Config → ℕ
full cfg = cfg.burst * unit

-- The bucket that `Allow` puts in for a new key.
abbrev pub fresh : Config → ℕ → Bucket
fresh cfg now = record { tokens = full cfg; last_refill = now }

-- The refill, with the cut at the burst.
unfoldable pub refill : Config → ℕ → Bucket → Bucket
refill cfg now b =
    let tokens' = b.tokens + (now - b.last_refill) * cfg.requests_per_second in
    record { tokens = if ltb (full cfg) tokens' then full cfg else tokens'; last_refill = now }

-- The test and the withdrawal.
unfoldable pub withdraw : Bucket → Bool × Bucket
withdraw b = if ltb b.tokens unit then (false, b) else (true, record b { tokens = b.tokens - unit })

-- The part of `Allow` under the mutex of the bucket.
unfoldable pub take_token : Config → ℕ → Bucket → Bool × Bucket
unfolding refill withdraw
take_token cfg now b = withdraw (refill cfg now b)

-- `Allow`: the first time is read where a bucket is made, the second under the mutex of the bucket.
unfoldable pub allow : ℕ → ℕ → Text → RateLimiter → Bool × RateLimiter
unfolding take_token
allow created now key r =
    let (ok, b) = take_token r.cfg now (or_else (lookup key r.buckets) (fresh r.cfg created)) in
    (ok, record r { buckets = insert key b r.buckets })
