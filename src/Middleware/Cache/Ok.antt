-- ===== src/Middleware/Cache/Ok.antt =====
-- Only answers with the status 200 are kept.
use cascade_proxy.Common.{
  ℕ, ◌%◌, ◌≡◌, refl, sym, ap, ◌∙◌, Option, none, some, List, leb, ltb, ◌==◌, ==_iff, length,
  get_elem?, Text, text_eq, Dict, lookup, insert, erase, lookup-insert, lookup-erase, Bool-cases,
  Option-cases, inl, inr,
}
use cascade_proxy.Http.{Header, Handler, Request, WriteOp, Clock}
use cascade_proxy.Middleware.Recorder
use cascade_proxy.Middleware.Recorder.{record_ops, status}
use cascade_proxy.Middleware.Cache.{
  Entry, ResponseCache, Config, new, get, get_from, set, evict_one, evict_at, method_get, store,
  miss, answer, handle,
}

abbrev pub AreOk : Dict Entry → Type 0
AreOk m = (key : Text) (e : Entry) → lookup key m ≡ some e → e.status ≡ 200

erase-AreOk : (k : Text) (m : Dict Entry) → AreOk m → AreOk (erase k m)
erase-AreOk k m ok key e found = elim (Bool-cases (text_eq k key)) [
  | inl same ↦ let gone : lookup key (erase k m) ≡ none = lookup-erase k key m ∙ rw same refl in cc
  | inr other ↦ ok key e (sym (lookup-erase k key m ∙ rw other refl) ∙ found)
]

insert-AreOk :
    (k : Text) (v : Entry) (m : Dict Entry) → v.status ≡ 200 → AreOk m → AreOk (insert k v m)
insert-AreOk k v m good ok key e found = elim (Bool-cases (text_eq k key)) [
  | inl same ↦
      let put : some v ≡ some e = sym (lookup-insert k key v m ∙ rw same refl) ∙ found in
      ap (λ (o : Option Entry). elim o [ none ↦ 200 | some x ↦ x.status ]) (sym put) ∙ good
  | inr other ↦ ok key e (sym (lookup-insert k key v m ∙ rw other refl) ∙ found)
]

evict_at-AreOk : (o : Option (Text × Entry)) (m : Dict Entry) → AreOk m → AreOk (evict_at o m)
unfolding evict_at
evict_at-AreOk none m ok = ok
evict_at-AreOk (some (k, _)) m ok = erase-AreOk k m ok

-- A look at the cache.
pub get-AreOk :
    (now : ℕ) (key : Text) (c : ResponseCache)
    → AreOk c.entries
    → AreOk (get now key c).1.entries × ((e : Entry) → (get now key c).0 ≡ some e → e.status ≡ 200)
unfolding get get_from
get-AreOk now key c ok = elim (Option-cases (lookup key c.entries)) [
  | inl none_ ↦ rw none_ (erase-AreOk key c.entries ok, λ e found. cc)
  | inr (o, there) ↦ elim (Bool-cases (ltb o.exp now)) [
    | inl old ↦ rw (there, old) (erase-AreOk key c.entries ok, λ e found. cc)
    | inr young ↦ rw (there, young) (ok, λ e found. ok key e (there ∙ found))
  ]
]

set-AreOk :
    (now choice : ℕ) (key : Text) (e : Entry) (c : ResponseCache)
    → e.status ≡ 200
    → AreOk c.entries
    → AreOk (set now choice key e c).entries
unfolding set evict_one
set-AreOk now choice key e c good ok =
    let evicted = evict_at-AreOk (get_elem? c.entries (choice % length c.entries)) c.entries ok in
    elim (Bool-cases (leb c.cfg.max_entries (length c.entries))) [
      | inl full ↦ rw full (insert-AreOk key _ _ good evicted)
      | inr room ↦ rw room (insert-AreOk key _ _ good ok)
    ]

module _ {W : Type 0} (clock : Clock W) (request_uri : Request → Text) (choice : W → ℕ)
    (next : Handler W) where
  store-AreOk :
      (key : Text) (h : Header) (ops : List WriteOp) (c : ResponseCache) (w : W)
      → AreOk c.entries
      → AreOk (store clock request_uri choice key h ops c w).entries
  unfolding store
  store-AreOk key h ops c w ok =
      let code = status (record_ops ops Recorder.new).0 in
      elim (Bool-cases (code == 200)) [
        | inl good ↦
            rw good (set-AreOk (clock.now w) (choice w) key _ c ((==_iff code 200).0 good) ok)
        | inr bad ↦ rw bad ok
      ]

  -- The handler keeps no answer but those with the status 200, if it had no other before.
  pub handle-AreOk :
      (r : Request) (h : Header) (c : ResponseCache) (w : W)
      → AreOk c.entries
      → AreOk (handle clock request_uri choice next r h (c, w)).1.0.entries
  unfolding handle answer miss
  handle-AreOk r h c w ok =
      let key = request_uri r in
      let (kept, _) = get-AreOk (clock.now w) key c ok in
      elim (Bool-cases (text_eq r.method method_get)) [
        | inr other ↦ rw other ok
        | inl asked ↦ elim (Option-cases (get (clock.now w) key c).0) [
          | inr (e, found) ↦ rw (asked, found) kept
          | inl missed ↦
              let (ops, w') = next r h w in
              rw (asked, missed) (store-AreOk key h ops (get (clock.now w) key c).1 w' kept)
        ]
      ]

pub new-AreOk : (cfg : Config) → AreOk (new cfg).entries
unfolding new lookup
new-AreOk cfg key e found = cc
