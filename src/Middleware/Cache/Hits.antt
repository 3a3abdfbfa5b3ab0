-- ===== src/Middleware/Cache/Hits.antt =====
-- What a client is answered from the cache.
use cascade_proxy.Common.{
  ℕ, ◌+◌, ◌≤◌, ◌≡◌, refl, sym, ap, ◌∙◌, false, Option, none, some, List, [], ◌∷◌, ◌++◌, arith,
  if◌then◌else◌, Text, ascii, text_eq, text_eq_iff, lookup, All,
}
use cascade_proxy.Http.{
  Header, at_key, Request, Handler, Clock, WriteOp, set_header, write_header, write_body, Response,
  response, header_ops, header_after, IsCanonical,
}
use cascade_proxy.Http
use cascade_proxy.Http.Canonical.{canonical}
use cascade_proxy.Http.Laws.{at_key-header_ops, at_key-set, response-header_ops}
use cascade_proxy.Middleware.Recorder
use cascade_proxy.Middleware.Recorder.{record_ops, status, body}
use cascade_proxy.Middleware.Recorder.Laws.{IsRealOp, record_ops-transparent}
use cascade_proxy.Middleware.Cache.{
  Entry, ResponseCache, method_get, x_cache, get, hit_ops, store, miss, answer, handle,
}
use cascade_proxy.Middleware.Cache.Store.{lookup-set, get-hit}

canonical-x_cache : canonical x_cache ≡ x_cache
unfolding canonical ascii
canonical-x_cache = refl

at_key-hit :
    (h : Header) (e : Entry) (j : Text)
    → IsCanonical e.header
    → at_key j (Http.set x_cache (ascii "HIT") (header_after h (header_ops e.header)))
      ≡ (if text_eq x_cache j then ascii "HIT" ∷ [] else at_key j h ++ at_key j e.header)
at_key-hit h e j c =
    rw (at_key-set x_cache (ascii "HIT") j _, at_key-header_ops h e.header j c, canonical-x_cache)

-- The answer from an entry has the entry's status and body, and its header behind what the writer
-- held before, with the key that tells of the hit.
pub response-hit_ops :
    (h : Header) (e : Entry)
    → let answer = response h (hit_ops e) in
      (answer.status ≡ e.status)
      × (answer.body ≡ e.body)
      × ((j : Text)
          → IsCanonical e.header
          → at_key j answer.header
            ≡ (if text_eq x_cache j then ascii "HIT" ∷ [] else at_key j h ++ at_key j e.header))
unfolding hit_ops
response-hit_ops h e =
    rw (response-header_ops h e.header _)
      (unfold response in (refl, refl, λ j c. at_key-hit h e j c))

cfg-get : (now : ℕ) (key : Text) (c : ResponseCache) → (get now key c).1.cfg ≡ c.cfg
unfolding get
cfg-get now key c = ground arith

-- The handler's answer to a GET that `next` answers with 200, and what it then keeps.
module _ {W : Type 0} (clock : Clock W) (request_uri : Request → Text) (choice : W → ℕ)
    (next : Handler W) where
  -- The entry that is kept of the answer `ops`.
  abbrev pub entry_of : Header → List WriteOp → ResponseCache → W → Entry
  entry_of h ops c w =
      let (rec, told) = record_ops ops Recorder.new in
      record {
        header = header_after h told;
        body = body rec;
        status = status rec;
        exp = clock.now w + c.cfg.ttl;
      }

  miss_keeps :
      (key : Text) (r : Request) (h : Header) (c : ResponseCache) (w : W)
      → status (record_ops (next r h w).0 Recorder.new).0 ≡ 200
      → lookup key (miss clock request_uri choice next key r h (c, w)).1.0.entries
        ≡ some (entry_of h (next r h w).0 c (next r h w).1)
  unfolding miss
  miss_keeps key r h c w ok = rw (ok, store) (lookup-set _ _ key _ c)

  answer-none :
      (key : Text) (found : Option Entry × ResponseCache) (r : Request) (h : Header) (w : W)
      → found.0 ≡ none
      → answer clock request_uri choice next key found r h w
        ≡ miss clock request_uri choice next key r h (found.1, w)
  unfolding answer
  answer-none key (none, c) r h w e = refl
  answer-none key (some x, c) r h w e = cc

  handle-miss :
      (r : Request) (h : Header) (c : ResponseCache) (w : W)
      → r.method ≡ method_get
      → (get (clock.now w) (request_uri r) c).0 ≡ none
      → handle clock request_uri choice next r h (c, w)
        ≡ miss clock request_uri choice next
            (request_uri r)
            r
            h
            ((get (clock.now w) (request_uri r) c).1, w)
  unfolding handle
  handle-miss r h c w is_get missed =
      rw ((text_eq_iff r.method method_get).1 is_get)
        (answer-none (request_uri r) (get (clock.now w) (request_uri r) c) r h w missed)

  handle_hit :
      (r : Request) (h : Header) (c : ResponseCache) (w : W) (e : Entry)
      → r.method ≡ method_get
      → lookup (request_uri r) c.entries ≡ some e
      → clock.now w ≤ e.exp
      → handle clock request_uri choice next r h (c, w) ≡ (hit_ops e, (c, w))
  unfolding handle
  handle_hit r h c w e is_get found fresh = rw (
    (text_eq_iff r.method method_get).1 is_get,
    get-hit (clock.now w) (request_uri r) e c found fresh,
  )

-- A GET misses and `next` answers it with 200; by the time that the entry lives a GET with the same
-- URI comes in.
module _ {W : Type 0} (clock : Clock W) (request_uri : Request → Text) (choice : W → ℕ)
    (next : Handler W) (r r2 : Request) (h h2 : Header) (c : ResponseCache) (w w2 : W)
    (is_get : r.method ≡ method_get) (is_get2 : r2.method ≡ method_get)
    (same_uri : request_uri r2 ≡ request_uri r)
    (missed : (get (clock.now w) (request_uri r) c).0 ≡ none) (real : All IsRealOp (next r h w).0)
    (good : (response h (next r h w).0).status ≡ 200)
    (fresh : clock.now w2 ≤ clock.now (next r h w).1 + c.cfg.ttl) where
  abbrev emptied : ResponseCache
  emptied = (get (clock.now w) (request_uri r) c).1

  abbrev remembered : Entry
  remembered = entry_of clock request_uri choice next h (next r h w).0 emptied (next r h w).1

  first_answer :
      handle clock request_uri choice next r h (c, w)
      ≡ miss clock request_uri choice next (request_uri r) r h (emptied, w)
  first_answer = handle-miss clock request_uri choice next r h c w is_get missed

  second_answer :
      let c1 = (handle clock request_uri choice next r h (c, w)).1.0 in
      handle clock request_uri choice next r2 h2 (c1, w2) ≡ (hit_ops remembered, (c1, w2))
  second_answer =
      let (_, same_status, _, _) = record_ops-transparent h (next r h w).0 real in
      let kept =
        miss_keeps clock request_uri choice next (request_uri r) r h emptied w
          (same_status ∙ good) in
      rw first_answer (
        handle_hit clock request_uri choice next r2 h2 _ w2 remembered is_get2 (rw same_uri kept)
          (rw (cfg-get (clock.now w) (request_uri r) c) fresh))

  -- A GET that misses, and that `next` answers with 200 and without ever writing the status 0, and
  -- a second GET with the same URI that comes no later than the time to live after `next` was done:
  -- the second answer has the status and the body of the first, and neither the world nor the cache
  -- changes, so `next` is not asked.
  pub miss_then_hit :
      let (ops, (c1, w1)) = handle clock request_uri choice next r h (c, w) in
      let (ops2, (c2, w2')) = handle clock request_uri choice next r2 h2 (c1, w2) in
      (w2' ≡ w2)
      × (c2 ≡ c1)
      × ((response h2 ops2).status ≡ (response h ops).status)
      × ((response h2 ops2).body ≡ (response h ops).body)
  unfolding miss
  miss_then_hit =
      let (same_answer, same_status, same_body, _) = record_ops-transparent h (next r h w).0 real in
      let (status', body', _) = response-hit_ops h2 remembered in
      rw (second_answer, first_answer)
        (
          refl,
          refl,
          status' ∙ same_status ∙ sym (ap (λ (a : Response). a.status) same_answer),
          body' ∙ same_body ∙ sym (ap (λ (a : Response). a.body) same_answer),
        )

  -- In the same situation the second answer repeats what outer handlers have set: the entry keeps
  -- the whole header map of the writer, with what stood there before `next`, and the answer adds it
  -- to a map in which the outer handlers have set theirs once more. A key that `next` leaves alone,
  -- other than the one that tells of the hit, has on the second answer its values from before the
  -- second request and behind them those from before the first. The keys in the kept map are
  -- canonical and stand once.
  pub hit_repeats_header :
      (j : Text)
      → IsCanonical (header_after h (record_ops (next r h w).0 Recorder.new).1)
      → at_key j (header_after h (record_ops (next r h w).0 Recorder.new).1) ≡ at_key j h
      → text_eq x_cache j ≡ false
      → let (ops, (c1, w1)) = handle clock request_uri choice next r h (c, w) in
        let (ops2, _) = handle clock request_uri choice next r2 h2 (c1, w2) in
        at_key j (response h2 ops2).header ≡ at_key j h2 ++ at_key j h
  hit_repeats_header j canon untouched other =
      let (_, _, header') = response-hit_ops h2 remembered in
      rw (second_answer, header' j canon, other, untouched)
