-- ===== src/Http/Errors.antt =====
-- An error that is written behind other calls.
use cascade_proxy.Common.{
  ℕ, ◌≡◌, refl, ap, ◌∙◌, Bool, true, false, some, is_some, is_some-some, List, [], ◌∷◌, ◌++◌, arith,
  if◌then◌else◌, Text, ascii, All, Bool-cases, Option-cases, inl, inr,
}
use cascade_proxy.Http.{
  Header, WriteOp, set_header, add_header, del_header, write_header, write_body, set, header_after,
  Client, apply, apply_all, start, finish, response, http_error, content_type, send,
}
use cascade_proxy.Middleware.Recorder.Laws.{apply_all-append}
use cascade_proxy.Http.Heads.{IsHeaderOp, apply-heads}

-- Some call sends the head of the response.
unfoldable pub sends : List WriteOp → Bool
sends [] = false
sends (write_header code ∷ ops) = true
sends (write_body b ∷ ops) = true
sends (_ ∷ ops) = sends ops

pub sends_none : (ops : List WriteOp) → sends ops ≡ false → All IsHeaderOp ops
unfolding sends
sends_none [] e = tt
sends_none (set_header k v ∷ ops) e = (tt, sends_none ops e)
sends_none (add_header k v ∷ ops) e = (tt, sends_none ops e)
sends_none (del_header k ∷ ops) e = (tt, sends_none ops e)
sends_none (write_header code ∷ ops) e = absurd (ground arith)
sends_none (write_body b ∷ ops) e = absurd (ground arith)

sent-send : (code : ℕ) (c : Client) → is_some (send code c).sent ≡ true
sent-send code c = elim (Option-cases c.sent) [ inl e ↦ rw e refl | inr (s, e) ↦ rw e refl ]

stays_sent :
    (c : Client) (ops : List WriteOp)
    → is_some c.sent ≡ true
    → is_some (apply_all c ops).sent ≡ true
unfolding apply_all apply
stays_sent c [] e = e
stays_sent c (set_header k v ∷ ops) e = stays_sent (apply c (set_header k v)) ops e
stays_sent c (add_header k v ∷ ops) e = stays_sent (apply c (add_header k v)) ops e
stays_sent c (del_header k ∷ ops) e = stays_sent (apply c (del_header k)) ops e
stays_sent c (write_header code ∷ ops) e =
    stays_sent (apply c (write_header code)) ops (sent-send code c)
stays_sent c (write_body b ∷ ops) e = stays_sent (apply c (write_body b)) ops (sent-send 200 c)

pub sends_sent :
    (c : Client) (ops : List WriteOp) → sends ops ≡ true → is_some (apply_all c ops).sent ≡ true
unfolding apply_all apply sends
sends_sent c [] e = absurd (ground arith)
sends_sent c (set_header k v ∷ ops) e = sends_sent (apply c (set_header k v)) ops e
sends_sent c (add_header k v ∷ ops) e = sends_sent (apply c (add_header k v)) ops e
sends_sent c (del_header k ∷ ops) e = sends_sent (apply c (del_header k)) ops e
sends_sent c (write_header code ∷ ops) e =
    stays_sent (apply c (write_header code)) ops (sent-send code c)
sends_sent c (write_body b ∷ ops) e = stays_sent (apply c (write_body b)) ops (sent-send 200 c)

-- The header of an error.
abbrev pub error_header : Header → Header
error_header h =
    set (ascii "X-Content-Type-Options") (ascii "nosniff")
      (set content_type (ascii "text/plain; charset=utf-8") h)

late_error :
    (c : Client) (s : ℕ × Header) (message : Text) (code : ℕ)
    → c.sent ≡ some s
    → finish (apply_all c (http_error message code))
      ≡ record (finish c) { body = c.body ++ (message ++ (10 ∷ [])) }
unfolding apply_all apply
late_error c s message code e = rw e refl

-- An error that is written behind other calls is the response if none of them has sent anything,
-- with their changes of the header. Else the client gets their response, with the message behind
-- its body.
pub response-http_error :
    (h : Header) (ops : List WriteOp) (message : Text) (code : ℕ)
    → response h (ops ++ http_error message code) ≡ (
        if sends ops
        then record (response h ops) { body = (response h ops).body ++ (message ++ (10 ∷ [])) }
        else record {
          status = code;
          header = error_header (header_after h ops);
          body = message ++ (10 ∷ []);
        })
unfolding response apply_all apply
response-http_error h ops message code = elim (Bool-cases (sends ops)) [
  | inl sent_ ↦ rw sent_ (
      ap finish (apply_all-append (start h) ops (http_error message code))
      ∙ (let (s, e) =
            is_some-some (apply_all (start h) ops).sent (sends_sent (start h) ops sent_) in
          late_error (apply_all (start h) ops) s message code e))
  | inr quiet ↦ rw quiet (
      ap finish (
        apply_all-append (start h) ops (http_error message code)
        ∙ ap (λ c. apply_all c (http_error message code))
            (apply-heads ops h (sends_none ops quiet)))
      ∙ refl)
]
