-- ===== src/RateLimiter/Handler.antt =====
-- The method Middleware of internal/ratelimiter/ratelimiter.go, with both of Allow's readings of
-- the clock at one time.
use cascade_proxy.Common.{if◌then◌else◌, List, [], Text, ascii, text_eq}
use cascade_proxy.Http.{Handler, Request, WriteOp, Clock, get, http_error}
use cascade_proxy.RateLimiter.{RateLimiter, allow}

unfoldable pub client_key : Request → Text
client_key req =
    let fwd = get (ascii "X-Forwarded-For") req.header in
    if text_eq fwd [] then req.remote_addr else fwd

abbrev pub too_many : List WriteOp
too_many = http_error (ascii "429 Too Many Requests") 429

unfoldable pub handle : {W : Type 0} → Clock W → Handler W → Handler (RateLimiter × W)
unfolding client_key
handle clock next req h (limiter, w) =
    let (granted, limiter') = allow (clock.now w) (clock.now w) (client_key req) limiter in
    if granted
    then (let (ops, w') = next req h w in (ops, (limiter', w')))
    else (too_many, (limiter', w))
