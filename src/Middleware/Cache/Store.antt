-- ===== src/Middleware/Cache/Store.antt =====
-- The store of the cache: its size, and what is found under a key.
use cascade_proxy.Common.{
  ℕ, zero, suc, ◌+◌, ◌%◌, ◌≤◌, ◌<◌, ◌≡◌, refl, ◌⊎◌, inl, inr, none, some, List, [], ◌∷◌, arith, ltb,
  if◌then◌else◌, length, get_elem?, Text, text_eq, text_eq_iff, text_eq_refl, ◌≢◌, Dict, lookup,
  lookup-insert, lookup-erase, length-erase-le, length-erase-lt, length-insert-le, Option-cases,
}
use cascade_proxy.Middleware.Cache.{Entry, ResponseCache, get, evict_one, set}

get_elem?-lookup :
    (m : Dict Entry) (i : ℕ) (k : Text) (e : Entry)
    → get_elem? m i ≡ some (k, e)
    → (e' : Entry) × (lookup k m ≡ some e')
unfolding lookup
get_elem?-lookup [] i k e h = cc
get_elem?-lookup ((j, f) ∷ m) zero k e h = (f, ground (arith, text_eq_iff j k))
get_elem?-lookup ((j, f) ∷ m) (suc i) k e h =
    let (e', found) = get_elem?-lookup m i k e h in (if text_eq j k then f else e', ground arith)

get_elem?-in_range :
    {A : Type 0} (m : List A) (i : ℕ) → i < length m → (a : A) × (get_elem? m i ≡ some a)
get_elem?-in_range [] i h = elim h [ ]
get_elem?-in_range (x ∷ m) zero h = (x, refl)
get_elem?-in_range (x ∷ m) (suc i) h = get_elem?-in_range m i (omega arith)

-- Eviction takes an entry away, if there is one.
length-evict_one :
    (choice : ℕ) (m : Dict Entry) → 0 < length m → length (evict_one choice m) < length m
unfolding evict_one
length-evict_one choice m h =
    let ((k, e), there) = get_elem?-in_range m (choice % length m) (omega arith) in
    let (e', found) = get_elem?-lookup m _ k e there in
    rw (there, evict_one) (length-erase-lt k e' m found)

-- The cache holds at most as many entries as the configuration allows.
abbrev pub IsBounded : ResponseCache → Type 0
IsBounded c = length c.entries ≤ c.cfg.max_entries

-- Storing keeps the number of entries within the configured maximum, where that is positive: when
-- the cache is full it makes room first.
pub set-IsBounded :
    (now choice : ℕ) (key : Text) (e : Entry) (c : ResponseCache)
    → 0 < c.cfg.max_entries
    → IsBounded c
    → IsBounded (set now choice key e c)
unfolding set
set-IsBounded now choice key e c some_ h =
    let stored = record e { exp = now + c.cfg.ttl } in
    ground (
      arith,
      length-insert-le key stored c.entries,
      length-insert-le key stored (evict_one choice c.entries),
      length-evict_one choice c.entries,
    )

pub get-IsBounded :
    (now : ℕ) (key : Text) (c : ResponseCache) → IsBounded c → IsBounded (get now key c).1
unfolding get
get-IsBounded now key c h = ground (arith, length-erase-le key c.entries)

-- The entry as it is stored.
abbrev pub stamped : ℕ → Entry → ResponseCache → Entry
stamped now e c = record e { exp = now + c.cfg.ttl }

pub lookup-set :
    (now choice : ℕ) (key : Text) (e : Entry) (c : ResponseCache)
    → lookup key (set now choice key e c).entries ≡ some (stamped now e c)
unfolding set
lookup-set now choice key e c = rw (lookup-insert key key (stamped now e c) _, text_eq_refl key)

-- What is stored under a key is found there until its time is over, and after that nothing is.
pub get-set :
    (now choice later : ℕ) (key : Text) (e : Entry) (c : ResponseCache)
    → (get later key (set now choice key e c)).0
      ≡ (if ltb (now + c.cfg.ttl) later then none else some (stamped now e c))
unfolding get
get-set now choice later key e c = rw (lookup-set now choice key e c) (ground arith)

-- A fresh entry that is found changes nothing.
pub get-hit :
    (now : ℕ) (key : Text) (e : Entry) (c : ResponseCache)
    → lookup key c.entries ≡ some e
    → now ≤ e.exp
    → get now key c ≡ (some e, c)
unfolding get
get-hit now key e c found fresh = rw found (ground arith)

evict_one-lookup :
    (choice : ℕ) (j : Text) (m : Dict Entry)
    → (lookup j (evict_one choice m) ≡ lookup j m) ⊎ (lookup j (evict_one choice m) ≡ none)
unfolding evict_one
evict_one-lookup choice j m = elim (Option-cases (get_elem? m (choice % length m))) [
  | inl nothing ↦ rw (nothing, evict_one) (inl refl)
  | inr ((k, e), there) ↦ rw (there, evict_one) (let left = lookup-erase k j m in ground arith)
]

-- Storing under one key leaves what is found under another alone, unless the cache is full; then
-- nothing may be found there any more.
pub lookup-set_other :
    (now choice : ℕ) (key j : Text) (e : Entry) (c : ResponseCache)
    → key ≢ j
    → let after = lookup j (set now choice key e c).entries in
      (after ≡ lookup j c.entries) ⊎ ((after ≡ none) × (c.cfg.max_entries ≤ length c.entries))
unfolding set
lookup-set_other now choice key j e c other = ground (
  arith,
  text_eq_iff key j,
  lookup-insert key j (stamped now e c) c.entries,
  lookup-insert key j (stamped now e c) (evict_one choice c.entries),
  evict_one-lookup choice j c.entries,
)
