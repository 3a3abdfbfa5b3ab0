-- ===== src/Middleware/Timeout/Race.antt =====
-- A handler that goes on behind its deadline: what it writes then falls between the calls with
-- which the timeout is answered, on one writer.
use cascade_proxy.Common.{
  ℕ, ◌≡◌, ◌⊎◌, inl, inr, refl, sym, ap, ◌∙◌, Option, none, some, List, [], ◌∷◌, ◌++◌, or_else, All,
  Option-cases, true,
}
use cascade_proxy.Http.{
  Header, Request, WriteOp, set_header, add_header, del_header, write_header, write_body, Client,
  apply, apply_all, start, finish, response, Response,
}
use cascade_proxy.Middleware.Recorder
use cascade_proxy.Middleware.Recorder.{Recorder, on_op, record_ops}
use cascade_proxy.Middleware.Recorder.Laws.{IsRealOp, record_ops-transparent}
use cascade_proxy.Middleware.Timeout.{
  Config, Background, Turn, theirs, ours, weave, with_timeout, gateway_timeout,
}

-- The calls of two goroutines, each in its order.
pub data Interleaved : List WriteOp → List WriteOp → List WriteOp → Type 0 where
  both_done : Interleaved [] [] []
  first :
      {op : WriteOp} {xs ys zs : List WriteOp}
      → Interleaved xs ys zs
      → Interleaved (op ∷ xs) ys (op ∷ zs)
  second :
      {op : WriteOp} {xs ys zs : List WriteOp}
      → Interleaved xs ys zs
      → Interleaved xs (op ∷ ys) (op ∷ zs)

alone : (ys : List WriteOp) → Interleaved [] ys ys
alone [] = both_done
alone (op ∷ ys) = second (alone ys)

-- What the writer may be told of a handler that does `ops` in all, when the deadline passes: its
-- calls before, then its next calls among those of the timeout, and no further ones when the
-- middleware has returned.
pub data Raced (ops : List WriteOp) : List WriteOp → Type 0 where
  raced :
      (before during after zs : List WriteOp)
      → (record_ops ops Recorder.new).1 ≡ before ++ (during ++ after)
      → Interleaved during gateway_timeout zs
      → Raced ops (before ++ zs)

-- The status that is sent by these calls, if one is.
unfoldable pub status_sent : List WriteOp → Option ℕ
status_sent [] = none
status_sent (write_header code ∷ ops) = some code
status_sent (write_body b ∷ ops) = some 200
status_sent (_ ∷ ops) = status_sent ops

kept_status :
    (c : Client) (s : ℕ × Header) (ops : List WriteOp)
    → c.sent ≡ some s
    → (finish (apply_all c ops)).status ≡ s.0
unfolding apply_all apply
kept_status c s [] e = rw e refl
kept_status c s (set_header k v ∷ ops) e = kept_status (apply c (set_header k v)) s ops e
kept_status c s (add_header k v ∷ ops) e = kept_status (apply c (add_header k v)) s ops e
kept_status c s (del_header k ∷ ops) e = kept_status (apply c (del_header k)) s ops e
kept_status c s (write_header code ∷ ops) e =
    kept_status (apply c (write_header code)) s ops (rw e refl)
kept_status c s (write_body b ∷ ops) e = kept_status (apply c (write_body b)) s ops (rw e refl)

first_status :
    (c : Client) (ops : List WriteOp)
    → c.sent ≡ none
    → (finish (apply_all c ops)).status ≡ or_else (status_sent ops) 200
unfolding apply_all apply status_sent
first_status c [] e = rw e refl
first_status c (set_header k v ∷ ops) e = first_status (apply c (set_header k v)) ops e
first_status c (add_header k v ∷ ops) e = first_status (apply c (add_header k v)) ops e
first_status c (del_header k ∷ ops) e = first_status (apply c (del_header k)) ops e
first_status c (write_header code ∷ ops) e =
    kept_status (apply c (write_header code)) (code, c.header) ops (rw e refl)
first_status c (write_body b ∷ ops) e =
    kept_status (apply c (write_body b)) (200, c.header) ops (rw e refl)

pub append_sent :
    (t : ℕ) (xs ys : List WriteOp) → status_sent xs ≡ some t → status_sent (xs ++ ys) ≡ some t
unfolding status_sent
append_sent t [] ys e = cc
append_sent t (set_header k v ∷ xs) ys e = append_sent t xs ys e
append_sent t (add_header k v ∷ xs) ys e = append_sent t xs ys e
append_sent t (del_header k ∷ xs) ys e = append_sent t xs ys e
append_sent t (write_header code ∷ xs) ys e = e
append_sent t (write_body b ∷ xs) ys e = e

append_quiet :
    (xs ys : List WriteOp) → status_sent xs ≡ none → status_sent (xs ++ ys) ≡ status_sent ys
unfolding status_sent
append_quiet [] ys e = refl
append_quiet (set_header k v ∷ xs) ys e = append_quiet xs ys e
append_quiet (add_header k v ∷ xs) ys e = append_quiet xs ys e
append_quiet (del_header k ∷ xs) ys e = append_quiet xs ys e
append_quiet (write_header code ∷ xs) ys e = cc
append_quiet (write_body b ∷ xs) ys e = cc

-- One of the two goroutines sends the status.
pub one_sends :
    {xs ys zs : List WriteOp} (s : ℕ)
    → Interleaved xs ys zs
    → status_sent ys ≡ some s
    → (status_sent zs ≡ some s) ⊎ ((t : ℕ) × (status_sent zs ≡ some t) × (status_sent xs ≡ some t))
unfolding status_sent
one_sends s both_done e = cc
one_sends s (first {op = set_header k v} rest) e = one_sends s rest e
one_sends s (first {op = add_header k v} rest) e = one_sends s rest e
one_sends s (first {op = del_header k} rest) e = one_sends s rest e
one_sends s (first {op = write_header code} rest) e = inr (code, refl, refl)
one_sends s (first {op = write_body b} rest) e = inr (200, refl, refl)
one_sends s (second {op = set_header k v} rest) e = one_sends s rest e
one_sends s (second {op = add_header k v} rest) e = one_sends s rest e
one_sends s (second {op = del_header k} rest) e = one_sends s rest e
one_sends s (second {op = write_header code} rest) e = inl e
one_sends s (second {op = write_body b} rest) e = inl e

pub response-status :
    (h : Header) (ops : List WriteOp) → (response h ops).status ≡ or_else (status_sent ops) 200
unfolding response
response-status h ops = first_status (start h) ops refl

-- However the calls of a late handler fall between those of the timeout, the client receives either
-- 504 or the status that it would without the deadline, if the handler writes no status 0.
pub Raced-status :
    (h : Header) (ops zs : List WriteOp)
    → All IsRealOp ops
    → Raced ops zs
    → ((response h zs).status ≡ 504) ⊎ ((response h zs).status ≡ (response h ops).status)
Raced-status h ops _ real (raced before during after zs told mixed) =
    let own : (response h ops).status ≡ or_else (status_sent (before ++ (during ++ after))) 200 =
      sym (ap (λ (o : Response). o.status) (record_ops-transparent h ops real).0)
      ∙ response-status h (record_ops ops Recorder.new).1
      ∙ ap (λ o. or_else (status_sent o) 200) told in
    let got : (response h (before ++ zs)).status ≡ or_else (status_sent (before ++ zs)) 200 =
      response-status h (before ++ zs) in
    elim (Option-cases (status_sent before)) [
      | inr (t, sent_) ↦ inr (
          got
          ∙ ap (λ o. or_else o 200)
              (append_sent t before zs sent_ ∙ sym (append_sent t before (during ++ after) sent_))
          ∙ sym own)
      | inl quiet ↦ elim (one_sends 504 mixed (unfold status_sent in refl)) [
        | inl cut ↦ inl (got ∙ ap (λ o. or_else o 200) (append_quiet before zs quiet ∙ cut))
        | inr (t, here, there) ↦ inr (
            got
            ∙ ap (λ o. or_else o 200)
                (append_quiet before zs quiet
                  ∙ here
                  ∙ sym (
                      append_quiet before (during ++ after) quiet
                      ∙ append_sent t during after there))
            ∙ sym own)
      ]
    ]

-- A recorder passes on what sends nothing.
pub record_ops-quiet :
    (ops : List WriteOp) (rec : Recorder) → status_sent ops ≡ none → (record_ops ops rec).1 ≡ ops
unfolding record_ops on_op status_sent
record_ops-quiet [] rec e = refl
record_ops-quiet (set_header k v ∷ ops) rec e =
    ap (◌∷◌ (set_header k v)) (record_ops-quiet ops rec e)
record_ops-quiet (add_header k v ∷ ops) rec e =
    ap (◌∷◌ (add_header k v)) (record_ops-quiet ops rec e)
record_ops-quiet (del_header k ∷ ops) rec e = ap (◌∷◌ (del_header k)) (record_ops-quiet ops rec e)
record_ops-quiet (write_header code ∷ ops) rec e = cc
record_ops-quiet (write_body b ∷ ops) rec e = cc

-- By turns is one of the ways in which the calls can fall.
pub weave-Interleaved :
    (turns : List Turn) (told ys : List WriteOp)
    → (during after : List WriteOp) × (told ≡ during ++ after)
      × Interleaved during ys (weave turns told ys)
unfolding weave
weave-Interleaved turns told [] = ([], told, refl, both_done)
weave-Interleaved [] told (op ∷ ys) = ([], told, refl, alone (op ∷ ys))
weave-Interleaved (ours ∷ turns) told (op ∷ ys) =
    let (during, after, e, mixed) = weave-Interleaved turns told ys in
    (during, after, e, second mixed)
weave-Interleaved (theirs ∷ turns) [] (op ∷ ys) = weave-Interleaved turns [] (op ∷ ys)
weave-Interleaved (theirs ∷ turns) (mine ∷ told) (op ∷ ys) =
    let (during, after, e, mixed) = weave-Interleaved turns told (op ∷ ys) in
    (mine ∷ during, after, ap (◌∷◌ mine) e, first mixed)

-- What the middleware tells the writer for a late handler is one of these.
pub late-Raced :
    {W : Type 0} (cfg : Config) (next : ℕ → Background W) (r : Request) (h : Header) (w : W)
    → (next cfg.timeout r h w).0.expired ≡ true
    → Raced (next cfg.timeout r h w).0.ops (with_timeout cfg next r h w).0
unfolding with_timeout
late-Raced cfg next r h w late =
    let run = (next cfg.timeout r h w).0 in
    let (during, after, e, mixed) =
      weave-Interleaved run.turns (record_ops run.ops Recorder.new).1 gateway_timeout in
    rw late (raced [] during after _ e mixed)
