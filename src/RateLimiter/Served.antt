-- ===== src/RateLimiter/Served.antt =====
-- What the method Middleware lets through.
use cascade_proxy.Common.{
  ℕ, ◌+◌, ◌-◌, ◌*◌, ◌≤◌, ◌≡◌, refl, List, [], ◌∷◌, map, arith, if◌then◌else◌, Text, text_eq,
  Bool-cases, inl, inr,
}
use cascade_proxy.Http.{Header, Handler, Request, Clock}
use cascade_proxy.RateLimiter.{Config, RateLimiter, unit, new, allow}
use cascade_proxy.RateLimiter.Keys.{grants, InOrder, grants_bound}
use cascade_proxy.RateLimiter.Handler.{client_key, handle}

-- Requests, each of which finds a header and a world of its own.
abbrev pub Requests : Type 0 → Type 0
Requests W = List (Request × Header × W)

module _ {W : Type 0} (clock : Clock W) (asked : W → ℕ) (next : Handler W) where
  -- How often the next handler is asked for a client, where `asked` counts how often it was asked
  -- in all.
  unfoldable pub served : Text → RateLimiter → Requests W → ℕ
  served key limiter [] = 0
  served key limiter ((r, h, w) ∷ reqs) =
      let (limiter', w') = (handle clock next r h (limiter, w)).1 in
      (if text_eq (client_key r) key then asked w' - asked w else 0) + served key limiter' reqs

  -- Who asks, and when.
  abbrev pub arrivals : Requests W → List (Text × ℕ)
  arrivals reqs = map (λ q. (client_key q.0, clock.now q.2)) reqs

  served-grants :
      ((r : Request) (h : Header) (w : W) → asked (next r h w).1 ≡ asked w + 1)
      → (key : Text) (limiter : RateLimiter) (reqs : Requests W)
      → served key limiter reqs ≡ grants key limiter (arrivals reqs)
  unfolding served grants handle
  served-grants counts key limiter [] = refl
  served-grants counts key limiter ((r, h, w) ∷ reqs) =
      let now = clock.now w in
      let ih = served-grants counts key (allow now now (client_key r) limiter).1 reqs in
      elim (Bool-cases (allow now now (client_key r) limiter).0) [
        | inl ok_ ↦
            let one : asked (next r h w).1 - asked w ≡ 1 = omega (arith, counts r h w) in
            rw (ok_, one, ih) refl
        | inr refused ↦
            let nothing : asked w - asked w ≡ 0 = omega arith in rw (refused, nothing, ih) refl
      ]

  -- From a new limiter, over any requests of all clients whose times do not fall and lie between
  -- two times, the next handler is asked for one client at most as often as the burst and the
  -- tokens that the rate brings in between allow; `asked` counts how often it is asked.
  pub served_bound :
      ((r : Request) (h : Header) (w : W) → asked (next r h w).1 ≡ asked w + 1)
      → (cfg : Config) (key : Text) (start stop : ℕ) (reqs : Requests W)
      → InOrder start stop (arrivals reqs)
      → unit * served key (new cfg) reqs
        ≤ unit * cfg.burst + (stop - start) * cfg.requests_per_second
  served_bound counts cfg key start stop reqs h =
      rw (served-grants counts key (new cfg) reqs)
        (grants_bound cfg key start stop (arrivals reqs) h)
