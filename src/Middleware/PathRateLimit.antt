-- ===== src/Middleware/PathRateLimit.antt =====
-- internal/middleware/ratelimitbypath.go. The rate of a rule is the limiter's RequestsPerSecond;
-- its field TTL, which the limiter's Config does not have, and the log lines are left out.
pub mod Runs
use cascade_proxy.Common.{
  ℕ, Bool, true, false, ◌&&◌, List, [], ◌∷◌, map, Option, none, some, leb, if◌then◌else◌, length,
  take, Text, ascii, text_eq,
}
use cascade_proxy.Http.{Header, Handler, WriteOp, Clock, Request, http_error}
use cascade_proxy.RateLimiter
use cascade_proxy.RateLimiter.{RateLimiter, allow}
use cascade_proxy.Middleware.RateLimit.{client_key}

pub record Rule : Type 0 where
  pub prefix : Text
  pub rate : ℕ
  pub burst : ℕ

pub record Config : Type 0 where
  pub rules : List Rule
  pub fallback : Option RateLimiter.Config

abbrev pub default_config : Config
default_config = record { rules = []; fallback = none }

pub record Entry : Type 0 where
  pub prefix : Text
  pub limiter : RateLimiter

-- What the handler keeps: a limiter for each rule, and one for other paths.
pub record Limiters : Type 0 where
  pub entries : List Entry
  pub fallback : Option RateLimiter

abbrev pub entry_of : Rule → Entry
entry_of rule = record {
  prefix = rule.prefix;
  limiter = RateLimiter.new (record { requests_per_second = rule.rate; burst = rule.burst });
}

abbrev pub fallback_of : Option RateLimiter.Config → Option RateLimiter
fallback_of none = none
fallback_of (some cfg) = some (RateLimiter.new cfg)

-- NewPathRateLimitMiddleware, up to the handler
unfoldable pub new : Config → Limiters
new cfg = record { entries = map entry_of cfg.rules; fallback = fallback_of cfg.fallback }

-- path[:len(prefix)] == prefix, if the path is long enough
unfoldable pub governs : Text → Text → Bool
governs path prefix =
    leb (length prefix) (length path) && text_eq (take (length prefix) path) prefix

-- The fallback's answer, and the fallback then. Without one the request is let through.
unfoldable pub allow_fallback : ℕ → Text → Option RateLimiter → Bool × Option RateLimiter
allow_fallback now key none = (true, none)
allow_fallback now key (some l) = let (ok, l') = allow now now key l in (ok, some l')

-- The loop over the entries: the first whose prefix the path has is asked, in its place, or else
-- the fallback.
unfoldable pub ask : ℕ → Text → Text → List Entry → Option RateLimiter → Bool × Limiters
unfolding governs allow_fallback
ask now path key [] fallback =
    let (ok, fallback') = allow_fallback now key fallback in
    (ok, record { entries = []; fallback = fallback' })
ask now path key (e ∷ es) fallback =
    let (ok, l') = allow now now key e.limiter in
    let (ok_rest, s') = ask now path key es fallback in
    if governs path e.prefix
    then (ok, record { entries = record e { limiter = l' } ∷ es; fallback = fallback })
    else (ok_rest, record s' { entries = e ∷ s'.entries })

unfoldable pub allow_path : ℕ → Text → Text → Limiters → Bool × Limiters
unfolding ask
allow_path now path key s = ask now path key s.entries s.fallback

abbrev pub too_many : List WriteOp
too_many = http_error (ascii "Too Many Requests") 429

-- The handler.
unfoldable pub handle : {W : Type 0} → Clock W → Handler W → Handler (Limiters × W)
unfolding allow_path
handle clock next r h (s, w) =
    let (ok, s') = allow_path (clock.now w) r.path (client_key r) s in
    if ok then (let (ops, w') = next r h w in (ops, (s', w'))) else (too_many, (s', w))
