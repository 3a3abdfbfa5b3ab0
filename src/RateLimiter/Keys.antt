-- ===== src/RateLimiter/Keys.antt =====
-- The limiter over requests of many clients.
use native.Mathlib.Nat.{mul-add}
use cascade_proxy.Common.{
  ℕ, ◌+◌, ◌-◌, ◌*◌, ◌≤◌, ◌≡◌, refl, sym, subst, Bool, Option, none, some, List, [], ◌∷◌, inl, inr,
  arith, if◌then◌else◌, Bool-cases, Option-cases, Text, text_eq, text_eq_iff, text_eq_refl, lookup,
  lookup-insert, or_else,
}
use cascade_proxy.RateLimiter.{Config, Bucket, RateLimiter, unit, fresh, new, take_token, allow}
use cascade_proxy.RateLimiter.Bounds.{granted, credit, take_token-credit, take_token-paid}

-- The bucket that a request of the client meets.
abbrev pub bucket_of : RateLimiter → Text → ℕ → Bucket
bucket_of r key now = or_else (lookup key r.buckets) (fresh r.cfg now)

pub allow_lem :
    (now : ℕ) (key : Text) (r : RateLimiter)
    → ((allow now now key r).0 ≡ (take_token r.cfg now (bucket_of r key now)).0)
      × ((allow now now key r).1.cfg ≡ r.cfg)
unfolding allow
allow_lem now key r = (refl, refl)

-- A request changes the bucket of its own client, and no other.
pub lookup-allow :
    (now : ℕ) (key j : Text) (r : RateLimiter)
    → lookup j (allow now now key r).1.buckets ≡ (
        if text_eq key j
        then some (take_token r.cfg now (bucket_of r key now)).1
        else lookup j r.buckets)
unfolding allow
lookup-allow now key j r = lookup-insert key j _ r.buckets

-- How many of the requests of client `key` are granted, in a history of requests of all clients.
unfoldable pub grants : Text → RateLimiter → List (Text × ℕ) → ℕ
grants key r [] = 0
grants key r ((j, now) ∷ reqs) =
    let (ok, r') = allow now now j r in
    (if text_eq j key then granted ok else 0) + grants key r' reqs

-- The times do not fall, from `start` on, and end by `stop`.
abbrev pub InOrder : ℕ → ℕ → List (Text × ℕ) → Type 0
InOrder start stop [] = start ≤ stop
InOrder start stop ((j, now) ∷ reqs) = (start ≤ now) × InOrder now stop reqs

InOrder-le : (start stop : ℕ) (reqs : List (Text × ℕ)) → InOrder start stop reqs → start ≤ stop
InOrder-le start stop [] h = h
InOrder-le start stop ((j, now) ∷ reqs) h = omega (arith, InOrder-le now stop reqs h.1)

-- The limiter's bucket for the client, if there is one, was last touched by `now`.
abbrev Touched : ℕ → Option Bucket → Type 0
Touched now none = Unit {0}
Touched now (some b) = b.last_refill ≤ now

-- What the client can still be granted between `now` and `stop`.
abbrev owed : Config → ℕ → ℕ → Option Bucket → ℕ
owed cfg now stop o = credit cfg stop (or_else o (fresh cfg now))

fresh_same :
    (created now : ℕ) (cfg : Config)
    → take_token cfg now (fresh cfg created) ≡ take_token cfg now (fresh cfg now)
unfolding take_token
fresh_same created now cfg = ground arith

-- It matters not at which of its two times `Allow` makes the bucket of a new client.
pub allow-created :
    (created now : ℕ) (key : Text) (r : RateLimiter) → allow created now key r ≡ allow now now key r
unfolding allow
allow-created created now key r = elim (Option-cases (lookup key r.buckets)) [
  | inl new_ ↦ rw new_ (rw (fresh_same created now r.cfg))
  | inr (b, old) ↦ rw old
]

owed_mono :
    (cfg : Config) (start now stop : ℕ) (o : Option Bucket)
    → start ≤ now
    → now ≤ stop
    → owed cfg now stop o ≤ owed cfg start stop o
owed_mono cfg start now stop none h k = grind arith
owed_mono cfg start now stop (some b) h k = omega arith

Touched-mono : (start now : ℕ) (o : Option Bucket) → start ≤ now → Touched start o → Touched now o
Touched-mono start now none h t = tt
Touched-mono start now (some b) h t = omega arith

own_request :
    (cfg : Config) (now stop : ℕ) (o : Option Bucket)
    → now ≤ stop
    → Touched now o
    → let (ok, b') = take_token cfg now (or_else o (fresh cfg now)) in
      (unit * granted ok + owed cfg now stop (some b') ≤ owed cfg now stop o)
      × Touched now (some b')
own_request cfg now stop none h t = (
  take_token-credit cfg now stop (fresh cfg now) (omega arith) h,
  omega (arith, take_token-paid cfg now (fresh cfg now)),
)
own_request cfg now stop (some b) h t =
    (take_token-credit cfg now stop b t h, omega (arith, take_token-paid cfg now b))

-- What a request of client `j` grants to client `key`.
abbrev granted_to : Text → Text → Bool → ℕ
granted_to key j ok = if text_eq j key then granted ok else 0

-- The request pays for what it grants to the client, out of what the client is owed.
abbrev Pays : Text → ℕ → ℕ → RateLimiter → Text → Type 0
Pays key now stop r j =
    let (ok, r') = allow now now j r in
    (unit * granted_to key j ok + owed r'.cfg now stop (lookup key r'.buckets)
      ≤ owed r.cfg now stop (lookup key r.buckets))
    × Touched now (lookup key r'.buckets)

own_paid :
    (key : Text) (now stop : ℕ) (r : RateLimiter)
    → now ≤ stop
    → Touched now (lookup key r.buckets)
    → Pays key now stop r key
own_paid key now stop r h t =
    let self = text_eq_refl key in
    let (same, same_cfg) = allow_lem now key r in
    let found = rw self at (lookup-allow now key key r) in
    rw (self, same, same_cfg, found) (own_request r.cfg now stop (lookup key r.buckets) h t)

request-Pays :
    (key : Text) (now stop : ℕ) (r : RateLimiter) (j : Text)
    → now ≤ stop
    → Touched now (lookup key r.buckets)
    → Pays key now stop r j
request-Pays key now stop r j h t = elim (Bool-cases (text_eq j key)) [
  | inl own ↦
      subst (Pays key now stop r) (sym ((text_eq_iff j key).0 own)) (own_paid key now stop r h t)
  | inr other ↦
      let kept = rw other at (lookup-allow now j key r) in
      rw (other, (allow_lem now j r).1, kept) (omega arith, t)
]

grants-owed :
    (key : Text) (start stop : ℕ) (r : RateLimiter) (reqs : List (Text × ℕ))
    → InOrder start stop reqs
    → Touched start (lookup key r.buckets)
    → unit * grants key r reqs ≤ owed r.cfg start stop (lookup key r.buckets)
unfolding grants
grants-owed key start stop r [] h t = omega arith
grants-owed key start stop r ((j, now) ∷ reqs) (h, hs) t =
    let later = InOrder-le now stop reqs hs in
    let older = Touched-mono start now (lookup key r.buckets) h t in
    let (paid, touched) = request-Pays key now stop r j later older in
    let ih = grants-owed key now stop (allow now now j r).1 reqs hs touched in
    omega (
      arith,
      owed_mono r.cfg start now stop (lookup key r.buckets) h later,
      paid,
      mul-add unit (granted_to key j (allow now now j r).0) (grants key (allow now now j r).1 reqs),
    )

-- Over any history of requests of all clients, from a new limiter, in which the times do not fall,
-- start at `start` or later and end by `stop`, the requests granted to one client are at most the
-- burst and the tokens that the rate brings in between the two times.
pub grants_bound :
    (cfg : Config) (key : Text) (start stop : ℕ) (reqs : List (Text × ℕ))
    → InOrder start stop reqs
    → unit * grants key (new cfg) reqs ≤ unit * cfg.burst + (stop - start) * cfg.requests_per_second
unfolding new lookup
grants_bound cfg key start stop reqs h =
    omega (arith, grants-owed key start stop (new cfg) reqs h tt)
