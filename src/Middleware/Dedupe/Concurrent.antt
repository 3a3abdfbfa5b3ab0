-- ===== src/Middleware/Dedupe/Concurrent.antt =====
-- Requests that are in flight at the same time. The mutex makes the look at the map one step, and
-- the writing of the entry another; between the two the next handler serves the request.
use cascade_proxy.Common.{
  ℕ, ◌+◌, ◌≤◌, ◌<◌, ◌≡◌, refl, sym, ap, ◌∙◌, Option, none, some, List, [], ◌∷◌, ◌++◌, arith, lt→ltb,
  Text, text_eq, member, lookup, insert, lookup-insert, Bool-cases, Option-cases, inl, inr,
  if◌then◌else◌,
}
use cascade_proxy.Http.{Handler, Header, Request, WriteOp, Clock}
use cascade_proxy.Middleware.Recording.{Recording}
use cascade_proxy.Middleware.Dedupe.{
  Config, Entry, Seen, live, entry_of, fingerprint, serve, handle,
}

-- The map, the fingerprints of the requests in flight, and the time.
pub record System : Type 0 where
  pub seen : Seen
  pub flying : List Text
  pub now : ℕ

abbrev pub init : ℕ → System
init now = record { seen = []; flying = []; now = now }

pub data Step (rec : Recording) (cfg : Config) (s : System) : System → Type 0 where
  wait : (later : ℕ) → s.now ≤ later → Step rec cfg s (record s { now = later })
  hit : (key : Text) (e : Entry) → live s.now (lookup key s.seen) ≡ some e → Step rec cfg s s
  begin :
      (key : Text)
      → live s.now (lookup key s.seen) ≡ none
      → Step rec cfg s (record s { flying = key ∷ s.flying })
  finish :
      (before after : List Text) (key : Text) (ops : List WriteOp)
      → s.flying ≡ before ++ (key ∷ after)
      → Step rec cfg s (record s {
        seen = insert key (entry_of rec cfg s.now ops) s.seen;
        flying = before ++ after;
      })

pub data Run (rec : Recording) (cfg : Config) (s : System) : System → Type 0 where
  none_yet : Run rec cfg s s
  then_ : {t u : System} → Run rec cfg s t → Step rec cfg t u → Run rec cfg s u

module _ (rec : Recording) (cfg : Config) where
  -- No entry outlives the TTL.
  abbrev pub IsFresh : System → Type 0
  IsFresh s = (key : Text) (e : Entry) → lookup key s.seen ≡ some e → e.expiry ≤ s.now + cfg.ttl

  Step-IsFresh : {s t : System} → Step rec cfg s t → IsFresh s → IsFresh t
  Step-IsFresh {s} (wait later le) fresh key e found = omega (arith, fresh key e found)
  Step-IsFresh (hit k o live_) fresh key e found = fresh key e found
  Step-IsFresh (begin k dead) fresh key e found = fresh key e found
  Step-IsFresh {s} (finish before after k ops flies) fresh key e found =
      let new = lookup-insert k key (entry_of rec cfg s.now ops) s.seen in
      elim (Bool-cases (text_eq k key)) [
        | inl same ↦
            let got : some (entry_of rec cfg s.now ops) ≡ some e =
              sym (new ∙ rw same refl) ∙ found in
            let ends : s.now + cfg.ttl ≡ e.expiry =
              ap (λ (o : Option Entry). elim o [ none ↦ 0 | some x ↦ x.expiry ]) got in
            omega arith
        | inr other ↦ fresh key e (sym (new ∙ rw other refl) ∙ found)
      ]

  Run-IsFresh : {s t : System} → Run rec cfg s t → IsFresh s → IsFresh t
  Run-IsFresh none_yet fresh = fresh
  Run-IsFresh (then_ run step) fresh = Step-IsFresh step (Run-IsFresh run fresh)

  -- There is an entry of the key that lives at least as long.
  abbrev pub Lasts : Text → ℕ → System → Type 0
  Lasts key expiry s = (e : Entry) × (lookup key s.seen ≡ some e) × (expiry ≤ e.expiry)

  Step-Lasts :
      {s t : System} (key : Text) (expiry : ℕ)
      → Step rec cfg s t
      → expiry ≤ s.now + cfg.ttl
      → Lasts key expiry s
      → Lasts key expiry t × (s.now ≤ t.now)
  Step-Lasts key expiry (wait later le) bound lasts = (lasts, le)
  Step-Lasts key expiry (hit k o live_) bound lasts = (lasts, omega arith)
  Step-Lasts key expiry (begin k dead) bound lasts = (lasts, omega arith)
  Step-Lasts {s} key expiry (finish before after k ops flies) bound (e, found, longer) =
      let new = lookup-insert k key (entry_of rec cfg s.now ops) s.seen in
      elim (Bool-cases (text_eq k key)) [
        | inl same ↦ ((entry_of rec cfg s.now ops, new ∙ rw same refl, bound), omega arith)
        | inr other ↦ ((e, new ∙ rw other found, longer), omega arith)
      ]

  Run-Lasts :
      {s t : System} (key : Text) (expiry : ℕ)
      → Run rec cfg s t
      → expiry ≤ s.now + cfg.ttl
      → Lasts key expiry s
      → Lasts key expiry t × (s.now ≤ t.now)
  Run-Lasts key expiry none_yet bound lasts = (lasts, omega arith)
  Run-Lasts key expiry (then_ run step) bound lasts =
      let (lasts1, later1) = Run-Lasts key expiry run bound lasts in
      let (lasts2, later2) = Step-Lasts key expiry step (omega arith) lasts1 in
      (lasts2, omega arith)

  live_until :
      (now : ℕ) (o : Option Entry) (e : Entry) → o ≡ some e → now < e.expiry → live now o ≡ some e
  live_until now o e found soon = rw (found, lt→ltb now e.expiry soon) refl

  -- Once a request is done and its entry is written, every look at the map before the entry expires
  -- finds an entry that is not expired, whatever requests are looked up, begun and done meanwhile,
  -- in whatever order: no duplicate is served. The clock does not go back, and the map is empty at
  -- first.
  pub stays_remembered :
      {s t : System} (began : ℕ) (key : Text) (e : Entry)
      → Run rec cfg (init began) s
      → lookup key s.seen ≡ some e
      → Run rec cfg s t
      → t.now < e.expiry
      → (found : Entry) × (live t.now (lookup key t.seen) ≡ some found) × (e.expiry ≤ found.expiry)
  unfolding lookup
  stays_remembered {s} {t} began key e before there run soon =
      let fresh = Run-IsFresh before (λ k o found. cc) in
      let ((found, seen_, longer), _) =
        Run-Lasts key e.expiry run (fresh key e there) (e, there, omega arith) in
      (found, live_until t.now (lookup key t.seen) found seen_ (omega arith), longer)

  -- Two requests of a key that no entry lives of, neither of which is done before the other begins,
  -- are both served.
  both_begin :
      (s : System) (key : Text)
      → live s.now (lookup key s.seen) ≡ none
      → Run rec cfg s (record s { flying = key ∷ key ∷ s.flying })
  both_begin s key dead = then_ (then_ none_yet (begin key dead)) (begin key dead)

-- What a step is, of which request.
pub data Event : Type 0 where
  waited : Event
  replayed began : Text → Event
  served : Text → List WriteOp → Event

module _ {rec : Recording} {cfg : Config} where
  unfoldable pub event : {s t : System} → Step rec cfg s t → Event
  event (wait later le) = waited
  event (hit key e live_) = replayed key
  event (begin key dead) = began key
  event (finish before after key ops flies) = served key ops

  -- the steps of a run, the first one first
  unfoldable pub events : {s t : System} → Run rec cfg s t → List Event
  unfolding event
  events none_yet = []
  events (then_ run step) = events run ++ (event step ∷ [])

-- A call of the handler that no other interrupts, if the next handler does not set the clock back,
-- is a run of these steps to the state that the handler leaves. If the method is not listed it
-- takes its time and nothing else; if an entry of the fingerprint lives it replays, and nothing
-- else; else it begins, takes its time, and finishes with the entry of what the next handler wrote.
pub handle-Run :
    (hash : Text → Text) (url : Request → Text) {W : Type 0} (clock : Clock W) (rec : Recording)
    (cfg : Config) (next : Handler W) (r : Request) (h : Header) (seen : Seen) (flying : List Text)
    (w : W)
    → clock.now w ≤ clock.now (next r h w).1
    → let (ops, (seen', w')) = handle hash url clock rec cfg next r h (seen, w) in
      let key = fingerprint hash url r in
      (run : Run rec cfg
        (record { seen = seen; flying = flying; now = clock.now w })
        (record { seen = seen'; flying = flying; now = clock.now w' }))
      × (events run ≡ (
          if member r.method cfg.methods
          then elim (live (clock.now w) (lookup key seen)) [
            | none ↦ began key ∷ waited ∷ served key (next r h w).0 ∷ []
            | some e ↦ replayed key ∷ []
          ]
          else waited ∷ []))
unfolding handle serve events
handle-Run hash url clock rec cfg next r h seen flying w forth =
    elim (Bool-cases (member r.method cfg.methods)) [
      | inr free ↦ rw free (then_ none_yet (wait _ forth), refl)
      | inl listed ↦
          let key = fingerprint hash url r in
          elim (Option-cases (live (clock.now w) (lookup key seen))) [
            | inr (e, found) ↦ rw (listed, found) (then_ none_yet (hit key e found), refl)
            | inl missed ↦
                rw (listed, missed)
                  (
                    then_ (then_ (then_ none_yet (begin key missed)) (wait _ forth))
                        (finish [] flying key (next r h w).0 refl),
                    refl,
                  )
          ]
    ]
