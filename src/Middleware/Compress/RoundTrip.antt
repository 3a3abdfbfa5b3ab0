-- ===== src/Middleware/Compress/RoundTrip.antt =====
-- A client that decompresses reads what the handler wrote.
use cascade_proxy.Common.{
  ℕ, ◌≡◌, refl, sym, ap, ◌∙◌, Bool, Option, some, List, [], ◌∷◌, ◌++◌, map, append_assoc,
  append-nil, ◌==◌, ==_iff, ◌&&◌, if◌then◌else◌, Bool-cases, inl, inr, Text, ascii, contains,
  concat, All,
}
use cascade_proxy.Http.{
  Header, Handler, Request, WriteOp, set_header, add_header, del_header, write_header, write_body,
  get, set, add, del, header_after, Response, apply, apply_all, start, finish, response,
}
use cascade_proxy.Http.Heads.{IsHeaderOp, finish-bodies, apply-heads}
use cascade_proxy.Middleware.Recorder.Laws.{apply_all-append}
use cascade_proxy.Middleware.Compress.{
  Config, Gzip, GzipResponseWriter, content_encoding, content_length, held_status, start_gzip,
  commit, on_op, shrink, new, handle,
}
use cascade_proxy.Middleware.Compress.Copied.{up_to, copied, copied-up_to}
use cascade_proxy.Middleware.Compress.Body.{compressed, reached, shrink_open}

-- The calls of a handler that changes headers, writes a status unless that is 0, and then bodies.
abbrev pub answer : List WriteOp → ℕ → List Text → List WriteOp
answer heads status bodies = heads ++ (held_status status ++ map write_body bodies)

abbrev pub or_ok : ℕ → ℕ
or_ok status = if status == 0 then 200 else status

-- what of it a client gets, whose header map holds `h` before
abbrev pub answered : Header → ℕ → List Text → Response
answered h status bodies = record { status = or_ok status; header = h; body = concat bodies }

response-answer :
    (h : Header) (heads : List WriteOp) (status : ℕ) (bodies : List Text)
    → All IsHeaderOp heads
    → response h (answer heads status bodies) ≡ answered (header_after h heads) status bodies
unfolding response apply_all apply
response-answer h heads status bodies only =
    ap finish (
      apply_all-append (start h) heads (held_status status ++ map write_body bodies)
      ∙ ap (λ c. apply_all c (held_status status ++ map write_body bodies))
          (apply-heads heads h only))
    ∙ elim (Bool-cases (status == 0)) [
      | inl e ↦ rw e (finish-bodies (start (header_after h heads)) bodies)
      | inr e ↦
          rw e (finish-bodies (apply (start (header_after h heads)) (write_header status)) bodies)
    ]

module _ {S : Type 0} (gzip : Gzip S) where
  -- Changes of headers are passed on, the status is kept back.
  shrink-heads :
      (heads rest : List WriteOp) (g : GzipResponseWriter S)
      → All IsHeaderOp heads
      → shrink gzip (heads ++ rest) g ≡ heads ++ shrink gzip rest g
  unfolding shrink on_op
  shrink-heads [] rest g only = refl
  shrink-heads (set_header k v ∷ heads) rest g (_, only) =
      ap (◌∷◌ (set_header k v)) (shrink-heads heads rest g only)
  shrink-heads (add_header k v ∷ heads) rest g (_, only) =
      ap (◌∷◌ (add_header k v)) (shrink-heads heads rest g only)
  shrink-heads (del_header k ∷ heads) rest g (_, only) =
      ap (◌∷◌ (del_header k)) (shrink-heads heads rest g only)
  shrink-heads (write_header s ∷ heads) rest g (bad, only) = elim bad [ ]
  shrink-heads (write_body b ∷ heads) rest g (bad, only) = elim bad [ ]

  shrink-status :
      (status : ℕ) (rest : List WriteOp) (g : GzipResponseWriter S)
      → g.status ≡ 0
      → shrink gzip (held_status status ++ rest) g ≡ shrink gzip rest (record g { status = status })
  unfolding shrink on_op
  shrink-status status rest g e = elim (Bool-cases (status == 0)) [
    | inl none_ ↦
        rw none_ (
          ap (λ k. shrink gzip rest (record g { status = k }))
            (e ∙ sym ((==_iff status 0).0 none_)))
    | inr some_ ↦ rw some_ refl
  ]

  -- What the client gets is either what the handler wrote, or that with the body compressed.
  abbrev pub Delivered : (Text → Option Text) → Bool → Response → Response → Type 0
  Delivered gunzip compress plain got =
      if compress
      then (got.status ≡ plain.status)
        × (got.header ≡ del content_length (set content_encoding (ascii "gzip") plain.header))
        × (gunzip got.body ≡ some plain.body)
      else got ≡ plain

  IsHeaderOp-start_gzip :
      (heads : List WriteOp) → All IsHeaderOp heads → All IsHeaderOp (heads ++ start_gzip)
  IsHeaderOp-start_gzip [] only = (tt, (tt, tt))
  IsHeaderOp-start_gzip (op ∷ heads) (this, only) = (this, IsHeaderOp-start_gzip heads only)

  header_after-start_gzip :
      (heads : List WriteOp) (h : Header)
      → All IsHeaderOp heads
      → header_after h (heads ++ start_gzip)
        ≡ del content_length (set content_encoding (ascii "gzip") (header_after h heads))
  unfolding header_after
  header_after-start_gzip [] h only = refl
  header_after-start_gzip (set_header k v ∷ heads) h (_, only) =
      header_after-start_gzip heads (set k v h) only
  header_after-start_gzip (add_header k v ∷ heads) h (_, only) =
      header_after-start_gzip heads (add k v h) only
  header_after-start_gzip (del_header k ∷ heads) h (_, only) =
      header_after-start_gzip heads (del k h) only
  header_after-start_gzip (write_header s ∷ heads) h (bad, only) = elim bad [ ]
  header_after-start_gzip (write_body b ∷ heads) h (bad, only) = elim bad [ ]

  shrink-Delivered :
      (gunzip : Text → Option Text)
      → ((ts : List Text) → gunzip (concat (compressed gzip ts gzip.reset)) ≡ some (concat ts))
      → (cfg : Config) (h : Header) (heads : List WriteOp) (status : ℕ) (bodies : List Text)
      → All IsHeaderOp heads
      → Delivered gunzip
          (reached gzip cfg.min_length [] bodies)
          (response h (answer heads status bodies))
          (response h (shrink gzip (answer heads status bodies) (new gzip cfg)))
  unfolding commit
  shrink-Delivered gunzip inverse cfg h heads status bodies only =
      let (parts, (same, told)) =
        shrink_open gzip bodies (record (new gzip cfg) { status = status }) in
      let told_all =
        shrink-heads heads (held_status status ++ map write_body bodies) (new gzip cfg) only
        ∙ ap (◌++◌ heads)
            (shrink-status status (map write_body bodies) (new gzip cfg) refl ∙ told) in
      elim (Bool-cases (reached gzip cfg.min_length [] bodies)) [
        | inl long ↦
            let out : List Text = compressed gzip parts gzip.reset in
            let as_answer : shrink gzip (answer heads status bodies) (new gzip cfg)
                ≡ answer (heads ++ start_gzip) status out =
              told_all
              ∙ rw long (
                  sym (append_assoc heads start_gzip (held_status status ++ map write_body out))) in
            rw
              (
                long,
                as_answer,
                response-answer h heads status bodies only,
                response-answer h (heads ++ start_gzip) status out
                    (IsHeaderOp-start_gzip heads only),
              )
              (refl, header_after-start_gzip heads h only, inverse parts ∙ ap some same)
        | inr short ↦
            let as_answer : shrink gzip (answer heads status bodies) (new gzip cfg)
                ≡ answer heads status (concat bodies ∷ []) =
              told_all ∙ rw short refl in
            rw
              (
                short,
                as_answer,
                response-answer h heads status bodies only,
                response-answer h heads status (concat bodies ∷ []) only,
                append-nil (concat bodies),
              )
              refl
      ]

  -- The same in a handler.
  pieces-Delivered :
      {W : Type 0} (gunzip : Text → Option Text)
      → ((ts : List Text) → gunzip (concat (compressed gzip ts gzip.reset)) ≡ some (concat ts))
      → (cfg : Config) (next : Handler W) (r : Request) (h : Header) (w : W)
      → (heads : List WriteOp) (status : ℕ) (bodies : List Text)
      → (next r h w).0 ≡ answer heads status bodies
      → All IsHeaderOp heads
      → Delivered gunzip
          (contains (get (ascii "Accept-Encoding") r.header) (ascii "gzip")
            && reached gzip cfg.min_length [] bodies)
          (response h (next r h w).0)
          (response h (handle gzip cfg next r h w).0)
        × ((handle gzip cfg next r h w).1 ≡ (next r h w).1)
  unfolding handle
  pieces-Delivered gunzip inverse cfg next r h w heads status bodies e only =
      elim (Bool-cases (contains (get (ascii "Accept-Encoding") r.header) (ascii "gzip"))) [
        | inl asked ↦
            rw (asked, e) (shrink-Delivered gunzip inverse cfg h heads status bodies only, refl)
        | inr plain ↦ rw plain (refl, refl)
      ]

  -- A handler changes headers, writes at most one status, and then its body in pieces: either it
  -- ignores what Write returns, and writes them all, or it copies them with io.Copy. Where gunzip
  -- undoes the gzip writer, a client that asks for gzip gets, when what is written of the body
  -- reaches the minimal length and any of it was written, the same status, the header with
  -- Content-Encoding gzip and without Content-Length, and a body that gunzip turns into what was
  -- written; every other answer is as the handler wrote it. All is written but of a body that is
  -- copied for a client that asks for gzip: of this, when it reaches the minimal length, the pieces
  -- up to the one with which it does, unless nothing stands before that piece. The world is left as
  -- the handler leaves it.
  pub handle-Delivered :
      {W : Type 0} (gunzip : Text → Option Text)
      → ((ts : List Text) → gunzip (concat (compressed gzip ts gzip.reset)) ≡ some (concat ts))
      → (cfg : Config) (next : Handler W) (r : Request) (h : Header) (w : W)
      → (heads : List WriteOp) (status : ℕ) (bodies : List Text) (copies : Bool)
      → let asked = contains (get (ascii "Accept-Encoding") r.header) (ascii "gzip") in
        let sent = if copies && asked then up_to cfg.min_length 0 bodies else bodies in
        (next r h w).0
          ≡ answer heads status (
              if copies && asked
              then copied gzip bodies (record (new gzip cfg) { status = status })
              else bodies)
        → All IsHeaderOp heads
        → Delivered gunzip
            (asked && reached gzip cfg.min_length [] sent)
            (response h (answer heads status sent))
            (response h (handle gzip cfg next r h w).0)
          × ((handle gzip cfg next r h w).1 ≡ (next r h w).1)
  handle-Delivered gunzip inverse cfg next r h w heads status bodies copies e only =
      let asked = contains (get (ascii "Accept-Encoding") r.header) (ascii "gzip") in
      let sent = if copies && asked then up_to cfg.min_length 0 bodies else bodies in
      let pieces =
        ap (λ bs. if copies && asked then bs else bodies)
          (copied-up_to gzip bodies (record (new gzip cfg) { status = status })) in
      let wrote : (next r h w).0 ≡ answer heads status sent = e ∙ ap (answer heads status) pieces in
      rw wrote at (pieces-Delivered gunzip inverse cfg next r h w heads status sent wrote only)
