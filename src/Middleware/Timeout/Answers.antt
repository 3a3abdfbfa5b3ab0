-- ===== src/Middleware/Timeout/Answers.antt =====
-- What the client receives of a handler behind the timeout.
use cascade_proxy.Common.{
  ℕ, ◌≡◌, ◌⊎◌, refl, sym, ap, ◌∙◌, true, Option, none, some, List, [], ◌∷◌, ◌++◌, if◌then◌else◌,
  ascii, All, Bool-cases, inl, inr, Option-cases, or_else,
}
use cascade_proxy.Http.{
  Header, Request, Response, WriteOp, set_header, add_header, del_header, write_header, write_body,
  response, apply_all, apply, start, finish, Client, send,
}
use cascade_proxy.Middleware.Recorder
use cascade_proxy.Middleware.Recorder.{record_ops, status}
use cascade_proxy.Middleware.Recorder.Laws.{
  IsRealOp, record_ops-append, apply_all-append, record_ops-transparent,
}
use cascade_proxy.Middleware.Timeout.{
  Config, Background, Started, Turn, theirs, ours, weave, with_timeout, gateway_timeout,
}
use cascade_proxy.Middleware.Timeout.Race.{
  status_sent, append_sent, response-status, Interleaved, both_done, first, second, one_sends,
  weave-Interleaved, late-Raced, Raced-status, record_ops-quiet,
}

finish-send : (c : Client) (code : ℕ) → (finish c).status ≡ code → finish (send code c) ≡ finish c
finish-send c code same = elim (Option-cases c.sent) [
  | inl none_ ↦
      let made : ℕ → Response = λ k. record { status = k; header = c.header; body = c.body } in
      rw none_ (ap made (sym (rw none_ at same)))
  | inr (s, e) ↦ rw e refl
]

-- Behind a handler that was done in time, its own status is written once more.
response-status_again :
    (h : Header) (ops : List WriteOp) (c : ℕ)
    → (response h ops).status ≡ c
    → response h (ops ++ (write_header c ∷ [])) ≡ response h ops
unfolding response apply_all apply
response-status_again h ops c same =
    ap finish (apply_all-append (start h) ops (write_header c ∷ []))
    ∙ finish-send (apply_all (start h) ops) c same

-- The calls of the handler before the first of the middleware.
unfoldable pub early : List Turn → List WriteOp → List WriteOp
early (theirs ∷ turns) (op ∷ told) = op ∷ early turns told
early _ _ = []

weave-early :
    (turns : List Turn) (told : List WriteOp) (op : WriteOp) (ys : List WriteOp)
    → (rest : List WriteOp) × (weave turns told (op ∷ ys) ≡ early turns told ++ rest)
unfolding weave early
weave-early [] told op ys = (_, refl)
weave-early (ours ∷ turns) told op ys = (_, refl)
weave-early (theirs ∷ turns) [] op ys = (_, refl)
weave-early (theirs ∷ turns) (mine ∷ told) op ys =
    let (rest, e) = weave-early turns told op ys in (rest, ap (◌∷◌ mine) e)

body-send : (code : ℕ) (c : Client) → (send code c).body ≡ c.body
body-send code c = elim (Option-cases c.sent) [ inl e ↦ rw e refl | inr (s, e) ↦ rw e refl ]

-- What sends nothing adds nothing to the body.
quiet_body :
    {xs ys zs : List WriteOp} (c d : Client)
    → Interleaved xs ys zs
    → status_sent xs ≡ none
    → c.body ≡ d.body
    → (apply_all c zs).body ≡ (apply_all d ys).body
unfolding status_sent apply_all apply
quiet_body c d both_done q e = e
quiet_body c d (first {op = set_header k v} rest) q e =
    quiet_body (apply c (set_header k v)) d rest q e
quiet_body c d (first {op = add_header k v} rest) q e =
    quiet_body (apply c (add_header k v)) d rest q e
quiet_body c d (first {op = del_header k} rest) q e = quiet_body (apply c (del_header k)) d rest q e
quiet_body c d (first {op = write_header code} rest) q e = cc
quiet_body c d (first {op = write_body b} rest) q e = cc
quiet_body c d (second {op = set_header k v} rest) q e =
    quiet_body (apply c (set_header k v)) (apply d (set_header k v)) rest q e
quiet_body c d (second {op = add_header k v} rest) q e =
    quiet_body (apply c (add_header k v)) (apply d (add_header k v)) rest q e
quiet_body c d (second {op = del_header k} rest) q e =
    quiet_body (apply c (del_header k)) (apply d (del_header k)) rest q e
quiet_body c d (second {op = write_header code} rest) q e =
    quiet_body (apply c (write_header code)) (apply d (write_header code)) rest q
      (body-send code c ∙ e ∙ sym (body-send code d))
quiet_body c d (second {op = write_body b} rest) q e =
    quiet_body (apply c (write_body b)) (apply d (write_body b)) rest q
      (ap (λ t. t ++ b) (body-send 200 c ∙ e ∙ sym (body-send 200 d)))

-- A late handler that sends nothing is answered by the timeout.
quiet_late :
    (h : Header) (turns : List Turn) (ops : List WriteOp)
    → status_sent ops ≡ none
    → let got = response h (weave turns (record_ops ops Recorder.new).1 gateway_timeout) in
      (got.status ≡ 504) × (got.body ≡ ascii "504 Gateway Timeout" ++ (10 ∷ []))
unfolding response
quiet_late h turns ops quiet =
    let told = record_ops-quiet ops Recorder.new quiet in
    let (during, after, split, mixed) =
      weave-Interleaved turns (record_ops ops Recorder.new).1 gateway_timeout in
    let still : status_sent during ≡ none = sent_before during after (sym split ∙ told) quiet in
    let woven : List WriteOp = weave turns (record_ops ops Recorder.new).1 gateway_timeout in
    (
      response-status h woven ∙ elim (one_sends 504 mixed (unfold status_sent in refl)) [
        | inl cut ↦ ap (λ o. or_else o 200) cut
        | inr (t, _, there) ↦ cc
      ],
      quiet_body (start h) (start h) mixed still refl ∙ (unfold apply_all apply in refl),
    )
  where
    sent_before :
        (xs ys : List WriteOp) {ops : List WriteOp}
        → xs ++ ys ≡ ops
        → status_sent ops ≡ none
        → status_sent xs ≡ none
    sent_before xs ys e q = elim (Option-cases (status_sent xs)) [
      | inl quiet' ↦ quiet'
      | inr (t, found) ↦ let sent_ = append_sent t xs ys found in cc
    ]

-- The answer to a late handler that sends the second status in all, if it sends one, and the first
-- before the middleware answers; without the timeout the client would receive `own`.
abbrev pub OverdueBy : ℕ → Option ℕ → Option ℕ → Response → Type 0
OverdueBy own (some code) all_ got = got.status ≡ code
OverdueBy own none none got =
    (got.status ≡ 504) × (got.body ≡ ascii "504 Gateway Timeout" ++ (10 ∷ []))
OverdueBy own none (some _) got = (got.status ≡ 504) ⊎ (got.status ≡ own)

abbrev pub Overdue : Header → Started → Response → Type 0
Overdue h run got =
    OverdueBy (response h run.ops).status
      (status_sent (early run.turns (record_ops run.ops Recorder.new).1)) (status_sent run.ops) got

pub with_timeout-Overdue :
    {W : Type 0} (cfg : Config) (next : ℕ → Background W) (r : Request) (h : Header) (w : W)
    → let run = (next cfg.timeout r h w).0 in
      All IsRealOp run.ops
      → run.expired ≡ true
      → Overdue h run (response h (with_timeout cfg next r h w).0)
with_timeout-Overdue cfg next r h w real late =
    let run = (next cfg.timeout r h w).0 in
    let told = (record_ops run.ops Recorder.new).1 in
    let woven : (with_timeout cfg next r h w).0 ≡ weave run.turns told gateway_timeout =
      unfold with_timeout in rw late refl in
    let raced = Raced-status h run.ops _ real (late-Raced cfg next r h w late) in
    elim (Option-cases (status_sent (early run.turns told))) [
      | inr (code, before) ↦
          let (rest, e) = weave-early run.turns told _ _ in
          rw before (
            ap (λ ops. (response h ops).status) (woven ∙ e)
            ∙ response-status h (early run.turns told ++ rest)
            ∙ ap (λ o. or_else o 200) (append_sent code (early run.turns told) rest before))
      | inl silent ↦ elim (Option-cases (status_sent run.ops)) [
        | inl quiet ↦ rw (silent, quiet, woven) (quiet_late h run.turns run.ops quiet)
        | inr (code, sent_) ↦ rw (silent, sent_) raced
      ]
    ]

-- A handler that is done in time is answered as if there were no deadline. One that is late, and
-- that writes no status 0, goes on. The client receives the status that it has sent before the
-- middleware answers, if it has sent one; if it sends none at all, 504 with the message of the
-- timeout; else either 504 or the status that it would without the timeout.
pub with_timeout-response :
    {W : Type 0} (cfg : Config) (next : ℕ → Background W) (r : Request) (h : Header) (w : W)
    → let run = (next cfg.timeout r h w).0 in
      let got = response h (with_timeout cfg next r h w).0 in
      All IsRealOp run.ops → if run.expired then Overdue h run got else got ≡ response h run.ops
with_timeout-response cfg next r h w real =
    let run = (next cfg.timeout r h w).0 in
    elim (Bool-cases run.expired) [
      | inl late ↦ rw late (with_timeout-Overdue cfg next r h w real late)
      | inr done ↦
          let (rec, told) = record_ops run.ops Recorder.new in
          let own : (with_timeout cfg next r h w).0 ≡ told ++ (write_header (status rec) ∷ []) =
            unfold with_timeout in rw done refl in
          rw done (
            ap (response h) own
            ∙ record_ops-append h run.ops (write_header (status rec) ∷ []) real
            ∙ response-status_again h run.ops (status rec)
                (sym (record_ops-transparent h run.ops real).1))
    ]
