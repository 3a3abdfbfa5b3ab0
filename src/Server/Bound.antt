-- ===== src/Server/Bound.antt =====
-- How often the stack asks its upstream for one client.
use cascade_proxy.Common.{
  ℕ, ◌+◌, ◌-◌, ◌*◌, ◌≤◌, ◌≡◌, refl, sym, ap, ◌∙◌, Bool, true, false, List, [], ◌∷◌, map, arith,
  if◌then◌else◌, Text, text_eq, All, Bool-cases, Option-cases, inl, inr, subst,
}
use cascade_proxy.Http.{Header, Handler, Request, Clock}
use cascade_proxy.CircuitBreaker.{Breaker}
use cascade_proxy.RateLimiter
use cascade_proxy.RateLimiter.{RateLimiter, unit, allow}
use cascade_proxy.RateLimiter.Bounds.{granted}
use cascade_proxy.RateLimiter.Keys.{grants, InOrder, grants_bound}
use cascade_proxy.Middleware.Cache
use cascade_proxy.Middleware.Cache.{ResponseCache, Entry, method_get}
use cascade_proxy.Middleware.Cache.Ok.{AreOk, get-AreOk}
use cascade_proxy.Middleware.RateLimit.{client_key}
use cascade_proxy.Middleware.Recorder.Laws.{IsRealOp}
use cascade_proxy.Server.{authorized, Inner}
use cascade_proxy.Server.Gates.{
  Verdict, unauthorized, preflight, too_fast, broken, passed, hit, gates, verdict, effect, held,
  has_key, is_preflight,
}
use cascade_proxy.Server.Gates.Served.{authorized-Gated}
use cascade_proxy.Server.Gates.Kept.{authorized-AreOk}

-- Requests, each of which finds a header and a world of its own.
abbrev pub Requests : Type 0 → Type 0
Requests W = List (Request × Header × W)

-- The request has come to the limiter.
abbrev pub reaches : Verdict → Bool
reaches too_fast = true
reaches broken = true
reaches passed = true
reaches _ = false

scaled : (a b m : ℕ) → a ≤ b → unit * b ≤ m → unit * a ≤ m
scaled a b m le h = grind arith

add_le :
    (own : Bool) (d g n m : ℕ)
    → d ≤ g
    → n ≤ m
    → (if own then d else 0) + n ≤ (if own then g else 0) + m
add_le own d g n m dg nm = ground arith

none_le : (own : Bool) (d n m : ℕ) → d ≤ 0 → n ≤ m → (if own then d else 0) + n ≤ m
none_le own d n m dz nm = ground arith

-- A part of the requests, in their order, is in order as well.
InOrder-earlier :
    (start now stop : ℕ) (reqs : List (Text × ℕ))
    → start ≤ now
    → InOrder now stop reqs
    → InOrder start stop reqs
InOrder-earlier start now stop [] le h = omega arith
InOrder-earlier start now stop ((j, t) ∷ reqs) le (first, rest) = (omega arith, rest)

module _ {W : Type 0} (clock : Clock W) (request_uri : Request → Text) (choice : W → ℕ)
    (upstream : Handler W) (keys : List Text) (asked : W → ℕ) where
  abbrev pub judged : Request → Inner W → Verdict
  judged r s = verdict clock request_uri choice upstream keys r s

  -- How often the upstream is asked for a client, where `asked` counts how often it was asked.
  unfoldable pub sent : Text → ResponseCache → RateLimiter → Breaker → Requests W → ℕ
  sent key c limiter cb [] = 0
  sent key c limiter cb ((r, h, w) ∷ reqs) =
      let (c', (limiter', (cb', w'))) =
        (authorized clock request_uri choice upstream keys r h (c, (limiter, (cb, w)))).1 in
      (if text_eq (client_key r) key then asked w' - asked w else 0) + sent key c' limiter' cb' reqs

  abbrev pub arrivals : Requests W → List (Text × ℕ)
  arrivals reqs = map (λ q. (client_key q.0, clock.now q.2)) reqs

  -- Those that come to the limiter.
  unfoldable pub limited_arrivals :
      ResponseCache → RateLimiter → Breaker → Requests W → List (Text × ℕ)
  limited_arrivals c limiter cb [] = []
  limited_arrivals c limiter cb ((r, h, w) ∷ reqs) =
      let (c', (limiter', (cb', w'))) =
        (authorized clock request_uri choice upstream keys r h (c, (limiter, (cb, w)))).1 in
      let rest = limited_arrivals c' limiter' cb' reqs in
      if reaches (judged r (c, (limiter, (cb, w))))
      then (client_key r, clock.now w) ∷ rest
      else rest

  gates-passed :
      (r : Request) (limiter : RateLimiter) (cb : Breaker) (w : W)
      → gates clock request_uri choice upstream r limiter cb w ≡ passed
      → (allow (clock.now w) (clock.now w) (client_key r) limiter).0 ≡ true
  gates-passed r limiter cb w e =
      elim (Bool-cases (allow (clock.now w) (clock.now w) (client_key r) limiter).0) [
        | inl ok ↦ ok
        | inr refused ↦ let bad = rw refused at e in cc
      ]

  judged-passed :
      (r : Request) (c : ResponseCache) (limiter : RateLimiter) (cb : Breaker) (w : W)
      → judged r (c, (limiter, (cb, w))) ≡ passed
      → (allow (clock.now w) (clock.now w) (client_key r) limiter).0 ≡ true
  judged-passed r c limiter cb w e = elim (Bool-cases (has_key keys r)) [
    | inr none_ ↦ let bad = rw none_ at e in cc
    | inl key ↦ elim (Bool-cases (is_preflight r)) [
      | inl asks ↦ let bad = rw (key, asks) at e in cc
      | inr plain ↦ elim (Bool-cases (text_eq r.method method_get)) [
        | inr other ↦ gates-passed r limiter cb w (rw (key, plain, other) at e)
        | inl got ↦ elim (Option-cases (Cache.get (clock.now w) (request_uri r) c).0) [
          | inl missed ↦ gates-passed r limiter cb w (rw (key, plain, got, missed) at e)
          | inr (x, found) ↦ let bad = rw (key, plain, got, found) at e in cc
        ]
      ]
    ]
  ]

  spent :
      (v : Verdict) (r : Request) (h : Header) (limiter : RateLimiter) (cb : Breaker) (w : W)
      → (asked (upstream r h w).1 ≡ asked w + 1)
      → (v ≡ passed → (allow (clock.now w) (clock.now w) (client_key r) limiter).0 ≡ true)
      → let (ok, allowed) = allow (clock.now w) (clock.now w) (client_key r) limiter in
        let left = effect clock request_uri choice upstream r h limiter cb w v in
        (asked left.1.1 - asked w ≤ (if reaches v then granted ok else 0))
        × (left.0 ≡ (if reaches v then allowed else limiter))
  spent unauthorized r h limiter cb w counts ok = (omega arith, refl)
  spent preflight r h limiter cb w counts ok = (omega arith, refl)
  spent too_fast r h limiter cb w counts ok = (omega arith, refl)
  spent broken r h limiter cb w counts ok = (omega arith, refl)
  spent passed r h limiter cb w counts ok = (rw (ok refl) (omega (arith, counts)), refl)
  spent (hit e) r h limiter cb w counts ok = (omega arith, refl)

  -- The upstream counts its requests and writes no status 0.
  abbrev pub Counts : Type 0
  Counts =
      (r : Request) (h : Header) (w : W)
      → (asked (upstream r h w).1 ≡ asked w + 1) × All IsRealOp (upstream r h w).0

  sent-grants :
      Counts
      → (key : Text) (c : ResponseCache) (limiter : RateLimiter) (cb : Breaker) (reqs : Requests W)
      → AreOk c.entries
      → sent key c limiter cb reqs ≤ grants key limiter (limited_arrivals c limiter cb reqs)
  unfolding sent grants limited_arrivals
  sent-grants counts key c limiter cb [] ok = omega arith
  sent-grants counts key c limiter cb ((r, h, w) ∷ reqs) ok =
      let v = judged r (c, (limiter, (cb, w))) in
      let (c', (limiter', (cb', w'))) =
        (authorized clock request_uri choice upstream keys r h (c, (limiter, (cb, w)))).1 in
      let hits = (get-AreOk (clock.now w) (request_uri r) c ok).1 in
      let gated =
        authorized-Gated clock request_uri choice upstream keys r h c limiter cb w
          (counts r (held keys r h) w).1
          (λ e found zero_. let good = hits e found in absurd (omega arith)) in
      let kept =
        authorized-AreOk clock request_uri choice upstream keys r h c (limiter, (cb, w)) ok in
      let (few, next_limiter) =
        spent v r (held keys r h) limiter cb w (counts r (held keys r h) w).0
          (judged-passed r c limiter cb w) in
      let asked_few = rw (sym gated.changed) at few in
      let limiter_is = ap (λ x. x.0) gated.changed ∙ next_limiter in
      let ih = sent-grants counts key c' limiter' cb' reqs kept in
      let own = text_eq (client_key r) key in
      let rest = limited_arrivals c' limiter' cb' reqs in
      let n = sent key c' limiter' cb' reqs in
      let (allowed_, allowed) = allow (clock.now w) (clock.now w) (client_key r) limiter in
      elim (Bool-cases (reaches v)) [
        | inl come ↦
            let le = rw come at asked_few in
            let same : limiter' ≡ allowed = rw come at limiter_is in
            rw come (
              add_le own (asked w' - asked w) (granted allowed_) n (grants key allowed rest) le
                (subst (λ l. n ≤ grants key l rest) same ih))
        | inr early ↦
            let le = rw early at asked_few in
            let same : limiter' ≡ limiter = rw early at limiter_is in
            rw early (
              none_le own (asked w' - asked w) n (grants key limiter rest) le
                (subst (λ l. n ≤ grants key l rest) same ih))
      ]

  limited_arrivals-InOrder :
      (c : ResponseCache) (limiter : RateLimiter) (cb : Breaker) (start stop : ℕ)
      (reqs : Requests W)
      → InOrder start stop (arrivals reqs)
      → InOrder start stop (limited_arrivals c limiter cb reqs)
  unfolding limited_arrivals
  limited_arrivals-InOrder c limiter cb start stop [] h = h
  limited_arrivals-InOrder c limiter cb start stop ((r, h1, w) ∷ reqs) (le, h) =
      let (c', (limiter', (cb', w'))) =
        (authorized clock request_uri choice upstream keys r h1 (c, (limiter, (cb, w)))).1 in
      let ih = limited_arrivals-InOrder c' limiter' cb' (clock.now w) stop reqs h in
      elim (Bool-cases (reaches (judged r (c, (limiter, (cb, w)))))) [
        | inl come ↦ rw come (le, ih)
        | inr early ↦ rw early (InOrder-earlier start (clock.now w) stop _ le ih)
      ]

  -- From a new limiter and a cache that holds only answers with the status 200, over any requests
  -- of all clients whose times do not fall and lie between two times, the upstream behind the key,
  -- the cache, the limiter and the breaker is asked for one client at most as often as the burst
  -- and the tokens that the rate brings in between allow. The upstream counts how often it is
  -- asked, and writes no status 0.
  pub sent_bound :
      Counts
      → (cfg : RateLimiter.Config) (key : Text) (c : ResponseCache) (cb : Breaker) (start stop : ℕ)
        (reqs : Requests W)
      → AreOk c.entries
      → InOrder start stop (arrivals reqs)
      → unit * sent key c (RateLimiter.new cfg) cb reqs
        ≤ unit * cfg.burst + (stop - start) * cfg.requests_per_second
  sent_bound counts cfg key c cb start stop reqs ok h =
      let few = sent-grants counts key c (RateLimiter.new cfg) cb reqs ok in
      let come = limited_arrivals c (RateLimiter.new cfg) cb reqs in
      let bound =
        grants_bound cfg key start stop come
          (limited_arrivals-InOrder c (RateLimiter.new cfg) cb start stop reqs h) in
      scaled (sent key c (RateLimiter.new cfg) cb reqs) (grants key (RateLimiter.new cfg) come) _
        few bound
