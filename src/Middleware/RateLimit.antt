-- ===== src/Middleware/RateLimit.antt =====
-- internal/middleware/ratelimit.go. The log line is left out.
use cascade_proxy.Common.{
  ◌<◌, ◌≡◌, refl, true, false, List, [], arith, none, if◌then◌else◌, Text, ascii, text_eq, lookup,
}
use cascade_proxy.Http.{Header, Handler, WriteOp, Clock, Request, get, http_error}
use cascade_proxy.RateLimiter.{RateLimiter, allow, fresh}
use cascade_proxy.RateLimiter.Keys.{allow_lem}
use cascade_proxy.RateLimiter.Bounds.{take_token_grants}

abbrev pub too_many : List WriteOp
too_many = http_error (ascii "429 Too Many Requests") 429

unfoldable pub client_key : Request → Text
client_key r =
    let fwd = get (ascii "X-Forwarded-For") r.header in
    if text_eq fwd [] then r.remote_addr else fwd

module _ {W : Type 0} (clock : Clock W) where
  -- The handler that `Handler` makes. The limiter's two readings of the clock are at the same time.
  unfoldable pub handle : Handler W → Handler (RateLimiter × W)
  unfolding client_key
  handle next r h (limiter, w) =
      let (ok, limiter') = allow (clock.now w) (clock.now w) (client_key r) limiter in
      if ok
      then (let (ops, w') = next r h w in (ops, (limiter', w')))
      else (too_many, (limiter', w))

  -- A request whose X-Forwarded-For, which is not empty, names a client that the limiter has not
  -- met is served, if the burst is positive, whoever sends it: a sender that names a new client
  -- each time is not limited.
  pub new_name_served :
      (next : Handler W) (r : Request) (h : Header) (limiter : RateLimiter) (w : W) (name : Text)
      → get (ascii "X-Forwarded-For") r.header ≡ name
      → text_eq name [] ≡ false
      → lookup name limiter.buckets ≡ none
      → 0 < limiter.cfg.burst
      → ((handle next r h (limiter, w)).0 ≡ (next r h w).0)
        × ((handle next r h (limiter, w)).1.1 ≡ (next r h w).1)
  unfolding handle
  new_name_served next r h limiter w name named there unmet some_ =
      let served =
        take_token_grants limiter.cfg (clock.now w) (fresh limiter.cfg (clock.now w)) some_
          (grind arith) in
      let granted : (allow (clock.now w) (clock.now w) name limiter).0 ≡ true =
        rw ((allow_lem (clock.now w) name limiter).0, unmet) served in
      rw (named, there, granted) (refl, refl)
