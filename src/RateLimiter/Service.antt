-- ===== src/RateLimiter/Service.antt =====
-- What the limiter owes its clients.
use Prim.Native.Nat.mul
use cascade_proxy.Common.{
  ℕ, zero, suc, ◌-◌, ◌*◌, ◌≤◌, ◌<◌, ◌≡◌, refl, min, true, false, arith, replicate, Text, List, [],
  ◌∷◌, All, text_eq, ◌∙◌, text_eq_refl, lookup,
}
use cascade_proxy.RateLimiter.{Config, Bucket, RateLimiter, unit, new, take_token, allow}
use cascade_proxy.RateLimiter.Bounds.{take_token-paid, take_token_grants}
use cascade_proxy.RateLimiter.Keys.{bucket_of, allow_lem, lookup-allow, grants}

-- The limiter behind these requests, each of which it grants or refuses.
abbrev pub allow_all : List (Text × ℕ) → RateLimiter → RateLimiter
allow_all [] r = r
allow_all ((k, now) ∷ reqs) r = allow_all reqs (allow now now k r).1

-- Requests of others leave the client's bucket alone.
others_only :
    (key : Text) (reqs : List (Text × ℕ)) (r : RateLimiter)
    → All (λ q. text_eq q.0 key ≡ false) reqs
    → (lookup key (allow_all reqs r).buckets ≡ lookup key r.buckets)
      × ((allow_all reqs r).cfg ≡ r.cfg)
others_only key [] r others = (refl, refl)
others_only key ((k, now) ∷ reqs) r (other, others) =
    let (kept, same) = others_only key reqs (allow now now k r).1 others in
    (kept ∙ rw other at (lookup-allow now k key r), same ∙ (allow_lem now k r).1)

-- Where the burst is positive, a client that has waited since its last request, granted or not, for
-- as long as the rate takes to bring in one token is served, whatever requests of other clients
-- came meanwhile.
pub waiting_served :
    (key : Text) (before now : ℕ) (others : List (Text × ℕ)) (r : RateLimiter)
    → 0 < r.cfg.burst
    → unit ≤ (now - before) * r.cfg.requests_per_second
    → All (λ q. text_eq q.0 key ≡ false) others
    → (allow now now key (allow_all others (allow before before key r).1)).0 ≡ true
waiting_served key before now others r some_ waited alone =
    let b = (take_token r.cfg before (bucket_of r key before)).1 in
    let (kept, same) = others_only key others (allow before before key r).1 alone in
    let found = kept ∙ rw (text_eq_refl key) at (lookup-allow before key key r) in
    let stamped = (take_token-paid r.cfg before (bucket_of r key before)).1 in
    rw
      (
        (allow_lem now key (allow_all others (allow before before key r).1)).0,
        found,
        same ∙ (allow_lem before key r).1,
      )
      (take_token_grants r.cfg now b some_ (rw stamped (omega arith)))

-- The bucket of the client holds `k` whole tokens at the time `now`.
abbrev Holds : ℕ → ℕ → Config → Bucket → Type 0
Holds k now cfg b = (b.tokens ≡ k * unit) × (b.last_refill ≡ now) × (k ≤ cfg.burst)

idle :
    (now : ℕ) (cfg : Config) (b : Bucket)
    → b.last_refill ≡ now
    → (now - b.last_refill) * cfg.requests_per_second ≡ 0
idle now cfg b e = let nothing : now - b.last_refill ≡ 0 = omega arith in rw nothing (mul.zero _)

take_token_whole :
    (k now : ℕ) (cfg : Config) (b : Bucket)
    → Holds (suc k) now cfg b
    → ((take_token cfg now b).0 ≡ true) × Holds k now cfg (take_token cfg now b).1
unfolding take_token
take_token_whole k now cfg b (t, l, h) = ground (arith, idle now cfg b l)

take_token_empty :
    (now : ℕ) (cfg : Config) (b : Bucket)
    → Holds 0 now cfg b
    → ((take_token cfg now b).0 ≡ false) × Holds 0 now cfg (take_token cfg now b).1
unfolding take_token
take_token_empty now cfg b (t, l, h) = ground (arith, idle now cfg b l)

-- The bucket that the next request at the same time meets.
bucket-allow :
    (key : Text) (now : ℕ) (r : RateLimiter)
    → bucket_of (allow now now key r).1 key now ≡ (take_token r.cfg now (bucket_of r key now)).1
bucket-allow key now r = rw (rw (text_eq_refl key) at (lookup-allow now key key r))

at_once :
    (key : Text) (now n k : ℕ) (r : RateLimiter)
    → Holds k now r.cfg (bucket_of r key now)
    → grants key r (replicate n (key, now)) ≡ min n k
unfolding grants
at_once key now zero k r h = omega arith
at_once key now (suc n) zero r h =
    let (refused, h') = take_token_empty now r.cfg (bucket_of r key now) h in
    let (same, same_cfg) = allow_lem now key r in
    let ih =
      at_once key now n zero (allow now now key r).1 (rw (bucket-allow key now r, same_cfg) h') in
    rw (text_eq_refl key, same, refused) (omega arith)
at_once key now (suc n) (suc k) r h =
    let (served, h') = take_token_whole k now r.cfg (bucket_of r key now) h in
    let (same, same_cfg) = allow_lem now key r in
    let ih =
      at_once key now n k (allow now now key r).1 (rw (bucket-allow key now r, same_cfg) h') in
    rw (text_eq_refl key, same, served) (omega arith)

-- Of any number of requests that a new client makes at one time, as many are granted as the burst
-- allows, and no more.
burst_at_once :
    (cfg : Config) (key : Text) (now n : ℕ)
    → grants key (new cfg) (replicate n (key, now)) ≡ min n cfg.burst
unfolding new lookup
burst_at_once cfg key now n = at_once key now n cfg.burst (new cfg) (refl, refl, omega arith)
