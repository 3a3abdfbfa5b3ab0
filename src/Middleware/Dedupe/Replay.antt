-- ===== src/Middleware/Dedupe/Replay.antt =====
-- What becomes of a request that is sent again.
use cascade_proxy.Common.{
  ◌+◌, ◌<◌, ◌≡◌, refl, ap, ◌∙◌, true, false, none, some, List, [], ◌∷◌, lt→ltb, Text, ascii,
  text_eq, text_eq_refl, member, lookup, lookup-insert, Bool-cases, Option-cases, inl, inr, All,
}
use cascade_proxy.Http.{
  Header, Handler, Request, WriteOp, Clock, header_ops, header_after, set, response, apply_all,
  apply,
}
use cascade_proxy.Http.Laws.{response-header_ops}
use cascade_proxy.Middleware.Recording.{Recording}
use cascade_proxy.Middleware.Dedupe.{
  Config, Entry, Seen, replay, live, fingerprint, entry_of, serve, handle,
}

response-replay :
    (h : Header) (e : Entry)
    → response h (replay e) ≡ record {
      status = e.status;
      header = set (ascii "X-Dedupe-Hit") (ascii "true") (header_after h (header_ops e.headers));
      body = e.body;
    }
unfolding response replay apply_all apply
response-replay h e = response-header_ops h e.headers _

module _ (hash : Text → Text) (url : Request → Text) {W : Type 0} (clock : Clock W)
    (rec : Recording) (cfg : Config) (next : Handler W) where
  -- What is remembered after requests, each of which finds a world of its own.
  unfoldable pub seen_after : List (Request × Header × W) → Seen → Seen
  seen_after [] seen = seen
  seen_after ((r, h, w) ∷ requests) seen =
      seen_after requests (handle hash url clock rec cfg next r h (seen, w)).1.0

  other_keeps :
      (r : Request) (h : Header) (w : W) (seen : Seen) (key : Text)
      → text_eq (fingerprint hash url r) key ≡ false
      → lookup key (handle hash url clock rec cfg next r h (seen, w)).1.0 ≡ lookup key seen
  unfolding handle serve
  other_keeps r h w seen key other = elim (Bool-cases (member r.method cfg.methods)) [
    | inr free ↦ rw free refl
    | inl listed ↦ elim (Option-cases (live (clock.now w) (lookup (fingerprint hash url r) seen))) [
      | inr (e, found) ↦ rw (listed, found) refl
      | inl missed ↦
          rw (listed, missed)
            (lookup-insert (fingerprint hash url r) key
                (entry_of rec cfg (clock.now (next r h w).1) (next r h w).0) seen
              ∙ rw other refl)
    ]
  ]

  others_keep :
      (requests : List (Request × Header × W)) (seen : Seen) (key : Text)
      → All (λ q. text_eq (fingerprint hash url q.0) key ≡ false) requests
      → lookup key (seen_after requests seen) ≡ lookup key seen
  unfolding seen_after handle serve
  others_keep [] seen key others = refl
  others_keep ((r, h, w) ∷ requests) seen key (other, others) =
      others_keep requests (handle hash url clock rec cfg next r h (seen, w)).1.0 key others
      ∙ other_keeps r h w seen key other

  -- A request with a method that is listed, of which nothing is remembered that has not expired, is
  -- served. If then, after requests with other fingerprints, one comes with the same fingerprint
  -- and a listed method before the TTL is over, it is not: the world and what is remembered stay,
  -- and its client gets the status and the body that were recorded of the first, and the headers
  -- that were, with X-Dedupe-Hit.
  pub duplicate_replayed :
      (seen : Seen) (r again : Request) (h h2 : Header) (w w2 : W)
      (between : List (Request × Header × W))
      → member r.method cfg.methods ≡ true
      → live (clock.now w) (lookup (fingerprint hash url r) seen) ≡ none
      → All (λ q. text_eq (fingerprint hash url q.0) (fingerprint hash url r) ≡ false) between
      → member again.method cfg.methods ≡ true
      → fingerprint hash url again ≡ fingerprint hash url r
      → clock.now w2 < clock.now (next r h w).1 + cfg.ttl
      → let ops = (next r h w).0 in
        let seen1 = (handle hash url clock rec cfg next r h (seen, w)).1.0 in
        let seen2 = seen_after between seen1 in
        let (told, state) = handle hash url clock rec cfg next again h2 (seen2, w2) in
        ((handle hash url clock rec cfg next r h (seen, w)).0 ≡ rec.passed ops)
        × (state ≡ (seen2, w2))
        × (response h2 told ≡ record {
          status = rec.status ops;
          header =
              set
                (ascii "X-Dedupe-Hit")
                (ascii "true")
                (header_after h2 (header_ops (rec.header ops)));
          body = rec.body ops;
        })
  unfolding handle serve
  duplicate_replayed seen r again h h2 w w2 between listed missed others listed2 same soon =
      let key = fingerprint hash url r in
      let e : Entry = entry_of rec cfg (clock.now (next r h w).1) (next r h w).0 in
      let served : handle hash url clock rec cfg next r h (seen, w)
          ≡ serve hash url clock rec cfg next r h (seen, w) =
        rw (listed, missed) refl in
      let seen1 : Seen = (handle hash url clock rec cfg next r h (seen, w)).1.0 in
      let seen2 : Seen = seen_after between seen1 in
      let found : lookup key seen2 ≡ some e =
        others_keep between seen1 key others
        ∙ ap (λ (o : List WriteOp × (Seen × W)). lookup key o.1.0) served
        ∙ lookup-insert key key e seen
        ∙ rw (text_eq_refl key) refl in
      let fresh_ : live (clock.now w2) (lookup (fingerprint hash url again) seen2) ≡ some e =
        rw (same, found, lt→ltb (clock.now w2) e.expiry soon) refl in
      let replayed : handle hash url clock rec cfg next again h2 (seen2, w2)
          ≡ (replay e, (seen2, w2)) =
        rw (listed2, fresh_) refl in
      (
        ap (λ (o : List WriteOp × (Seen × W)). o.0) served,
        ap (λ (o : List WriteOp × (Seen × W)). o.1) replayed,
        ap (λ (o : List WriteOp × (Seen × W)). response h2 o.0) replayed ∙ response-replay h2 e,
      )
