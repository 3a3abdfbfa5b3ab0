-- ===== src/Middleware/ResponseTransform/Rewritten.antt =====
-- What the client receives of a response that is rewritten.
use cascade_proxy.Common.{
  ℕ, ◌≡◌, refl, ap, ◌∙◌, Bool, false, List, [], ◌∷◌, ◌++◌, append_assoc, append-nil, if◌then◌else◌,
  Bool-cases, inl, inr, Text, ascii, All, contains, any, is_nil, ◌||◌,
}
use cascade_proxy.Http.{
  Header, Handler, Request, WriteOp, set_header, add_header, del_header, write_header, write_body,
  get, set, add, del, header_after, apply, apply_all, start, finish, response,
}
use cascade_proxy.Http.Heads.{IsHeaderOp, apply-heads}
use cascade_proxy.Middleware.Recorder.Laws.{apply_all-append}
use cascade_proxy.Middleware.ResponseTransform.{
  Config, TransformRecorder, on_op, record_all, transform, matches_content_type, handle,
}
use cascade_proxy.Middleware.ResponseTransform.Matching.{matches_content_type_lem}

-- The status that is written last, else this one.
unfoldable pub last_status : ℕ → List WriteOp → ℕ
last_status code [] = code
last_status code (write_header c ∷ ops) = last_status c ops
last_status code (_ ∷ ops) = last_status code ops

-- All that is written to the body.
unfoldable pub bodies : List WriteOp → Text
bodies [] = []
bodies (write_body b ∷ ops) = b ++ bodies ops
bodies (_ ∷ ops) = bodies ops

abbrev recorded : TransformRecorder → List WriteOp → TransformRecorder
recorded t ops = record {
  header = header_after t.header ops;
  code = last_status t.code ops;
  body = t.body ++ bodies ops;
}

record_all_lem :
    (ops : List WriteOp) (t : TransformRecorder)
    → ((record_all ops t).0 ≡ recorded t ops)
      × All IsHeaderOp (record_all ops t).1
      × ((h : Header) → header_after h (record_all ops t).1 ≡ header_after h ops)
unfolding record_all on_op last_status bodies header_after
record_all_lem [] t = (rw (append-nil t.body) refl, tt, λ h. refl)
record_all_lem (set_header k v ∷ ops) t =
    let (same, only, after) = record_all_lem ops (record t { header = set k v t.header }) in
    (same, (tt, only), λ h. after (set k v h))
record_all_lem (add_header k v ∷ ops) t =
    let (same, only, after) = record_all_lem ops (record t { header = add k v t.header }) in
    (same, (tt, only), λ h. after (add k v h))
record_all_lem (del_header k ∷ ops) t =
    let (same, only, after) = record_all_lem ops (record t { header = del k t.header }) in
    (same, (tt, only), λ h. after (del k h))
record_all_lem (write_header c ∷ ops) t = record_all_lem ops (record t { code = c })
record_all_lem (write_body b ∷ ops) t =
    let (same, only, after) = record_all_lem ops (record t { body = t.body ++ b }) in
    (same ∙ rw (append_assoc t.body b (bodies ops)) refl, only, after)

abbrev pub applies : {P : Type 0} → Config P → Header → Bool
applies cfg h =
    is_nil cfg.content_types || any (contains (get (ascii "Content-Type") h)) cfg.content_types

response-recorded :
    (ops : List WriteOp) (h : Header) (tail : List WriteOp)
    → response h ((record_all ops (record { header = h; code = 200; body = [] })).1 ++ tail)
      ≡ response (header_after h ops) tail
unfolding response
response-recorded ops h tail =
    let t : TransformRecorder = record { header = h; code = 200; body = [] } in
    let (_, only, after) = record_all_lem ops t in
    ap finish (
      apply_all-append (start h) (record_all ops t).1 tail
      ∙ ap (λ c. apply_all c tail) (apply-heads (record_all ops t).1 h only ∙ ap start (after h)))

module _ {P : Type 0} (replace_all : P → Text → Text → Text) {W : Type 0} where
  -- With some rule configured, the client gets the status that the handler writes last, or 200,
  -- with the header as the handler leaves it in the end. If the content type in it is one of those
  -- that are listed, or none is listed, the body is the handler's with the rules applied in order
  -- and Content-Length is set to the empty text; else header and body are the handler's. The world
  -- is left as the handler leaves it.
  pub handle-response :
      (cfg : Config P) (next : Handler W) (r : Request) (h : Header) (w : W)
      → is_nil cfg.rules ≡ false
      → let ops = (next r h w).0 in
        let end = header_after h ops in
        (response h (handle replace_all cfg next r h w).0 ≡ record {
          status = last_status 200 ops;
          header = if applies cfg end then set (ascii "Content-Length") [] end else end;
          body =
              if applies cfg end then transform replace_all cfg.rules (bodies ops) else bodies ops;
        })
        × ((handle replace_all cfg next r h w).1 ≡ (next r h w).1)
  unfolding handle response apply_all apply
  handle-response cfg next r h w some_ =
      let ops = (next r h w).0 in
      let t : TransformRecorder = record { header = h; code = 200; body = [] } in
      let (same, only, after) = record_all_lem ops t in
      let matching : matches_content_type (get (ascii "Content-Type") (record_all ops t).0.header)
            cfg.content_types
          ≡ applies cfg (header_after h ops) =
        matches_content_type_lem _ cfg.content_types
        ∙ ap (λ (u : TransformRecorder). applies cfg u.header) same in
      elim (Bool-cases (applies cfg (header_after h ops))) [
        | inl yes_ ↦ rw (some_, matching, yes_) (response-recorded ops h _ ∙ rw same refl, refl)
        | inr no_ ↦ rw (some_, matching, no_) (response-recorded ops h _ ∙ rw same refl, refl)
      ]
