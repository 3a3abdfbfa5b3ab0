-- ===== src/Middleware/Logged/Lines.antt =====
-- What is logged of a response.
use cascade_proxy.Common.{
  ℕ, arith, ◌+◌, ◌-◌, ◌≡◌, refl, sym, ap, ◌∙◌, Bool, true, false, is_some, is_some-none,
  is_some-some, Option, none, some, List, [], ◌∷◌, if◌then◌else◌, length, length-append, Text,
  member, Bool-cases, Option-cases, inl, inr,
}
use cascade_proxy.Http.{
  Header, Handler, Request, WriteOp, Clock, set_header, add_header, del_header, write_header,
  write_body, Client, apply, apply_all, start, finish, head_of, response, send,
}
use cascade_proxy.Middleware.Tracing
use cascade_proxy.Middleware.Tracing.{BufferedRecorder}
use cascade_proxy.Middleware.Logged.{
  StatusRecorder, new, on_op, record_all, Log, level_of, access_log, line_of,
}

-- No status is written but before the body, once.
abbrev pub IsOrderly : Bool → List WriteOp → Type 0
IsOrderly sent [] = Unit
IsOrderly false (write_header code ∷ ops) = IsOrderly true ops
IsOrderly true (write_header code ∷ ops) = ⊥
IsOrderly sent (write_body b ∷ ops) = IsOrderly true ops
IsOrderly sent (_ ∷ ops) = IsOrderly sent ops

body-send : (code : ℕ) (c : Client) → (send code c).body ≡ c.body
body-send code c = elim (Option-cases c.sent) [ inl e ↦ rw e refl | inr (s, e) ↦ rw e refl ]

bytes-body :
    (ops : List WriteOp) (rec : StatusRecorder) (c : Client)
    → rec.written ≡ length c.body
    → (record_all ops rec).written ≡ length (apply_all c ops).body
unfolding record_all on_op apply apply_all
bytes-body [] rec c e = e
bytes-body (set_header k v ∷ ops) rec c e = bytes-body ops rec (apply c (set_header k v)) e
bytes-body (add_header k v ∷ ops) rec c e = bytes-body ops rec (apply c (add_header k v)) e
bytes-body (del_header k ∷ ops) rec c e = bytes-body ops rec (apply c (del_header k)) e
bytes-body (write_header code ∷ ops) rec c e =
    bytes-body ops (on_op (write_header code) rec) (apply c (write_header code))
      (e ∙ ap length (sym (body-send code c)))
bytes-body (write_body b ∷ ops) rec c e =
    bytes-body ops (on_op (write_body b) rec) (apply c (write_body b)) (
      ap (λ n. n + length b) (e ∙ ap length (sym (body-send 200 c)))
      ∙ sym (length-append (send 200 c).body b))

sent_already :
    (code : ℕ) (c : Client)
    → is_some c.sent ≡ true
    → (finish (send code c)).status ≡ (finish c).status
sent_already code c e = let (s, found) = is_some-some c.sent e in rw found refl

sent_first : (code : ℕ) (c : Client) → is_some c.sent ≡ false → (finish (send code c)).status ≡ code
sent_first code c e = rw (is_some-none c.sent e) refl

ok_first : (c : Client) → (finish (send 200 c)).status ≡ (finish c).status
ok_first c = elim (Option-cases c.sent) [ inl e ↦ rw e refl | inr (s, e) ↦ rw e refl ]

is_sent : (code : ℕ) (c : Client) → is_some (send code c).sent ≡ true
is_sent code c = elim (Option-cases c.sent) [ inl e ↦ rw e refl | inr (s, e) ↦ rw e refl ]

any_header : (o : Option (ℕ × Header)) (h h2 : Header) → (head_of o h).0 ≡ (head_of o h2).0
any_header none h h2 = refl
any_header (some s) h h2 = refl

pub status_kept :
    (sent : Bool) (ops : List WriteOp) (rec : StatusRecorder) (c : Client)
    → IsOrderly sent ops
    → is_some c.sent ≡ sent
    → rec.status_code ≡ (finish c).status
    → (record_all ops rec).status_code ≡ (finish (apply_all c ops)).status
unfolding record_all on_op apply apply_all
status_kept sent [] rec c o s e = e
status_kept false (set_header k v ∷ ops) rec c o s e =
    status_kept false ops rec (apply c (set_header k v)) o s (e ∙ any_header c.sent c.header _)
status_kept true (set_header k v ∷ ops) rec c o s e =
    status_kept true ops rec (apply c (set_header k v)) o s (e ∙ any_header c.sent c.header _)
status_kept false (add_header k v ∷ ops) rec c o s e =
    status_kept false ops rec (apply c (add_header k v)) o s (e ∙ any_header c.sent c.header _)
status_kept true (add_header k v ∷ ops) rec c o s e =
    status_kept true ops rec (apply c (add_header k v)) o s (e ∙ any_header c.sent c.header _)
status_kept false (del_header k ∷ ops) rec c o s e =
    status_kept false ops rec (apply c (del_header k)) o s (e ∙ any_header c.sent c.header _)
status_kept true (del_header k ∷ ops) rec c o s e =
    status_kept true ops rec (apply c (del_header k)) o s (e ∙ any_header c.sent c.header _)
status_kept false (write_header code ∷ ops) rec c o s e =
    status_kept true ops (on_op (write_header code) rec) (apply c (write_header code)) o
      (is_sent code c) (sym (sent_first code c s))
status_kept true (write_header code ∷ ops) rec c o s e = elim o [ ]
status_kept false (write_body b ∷ ops) rec c o s e =
    status_kept true ops (on_op (write_body b) rec) (apply c (write_body b)) o (is_sent 200 c)
      (e ∙ sym (ok_first c))
status_kept true (write_body b ∷ ops) rec c o s e =
    status_kept true ops (on_op (write_body b) rec) (apply c (write_body b)) o (is_sent 200 c)
      (e ∙ sym (ok_first c))

-- The recorder of an orderly handler has the status and the number of bytes that the client
-- receives.
pub recorded :
    (h : Header) (ops : List WriteOp)
    → IsOrderly false ops
    → record_all ops new
      ≡ record { status_code = (response h ops).status; written = length (response h ops).body }
unfolding response
recorded h ops o =
    let code = status_kept false ops new (start h) o refl refl in
    let bytes = bytes-body ops new (start h) refl in cc

-- The recorder of tracing.go keeps what that of logger.go keeps of the status.
pub buffered-status :
    (ops : List WriteOp) (b : BufferedRecorder) (s : StatusRecorder)
    → b.status ≡ s.status_code
    → (Tracing.record_all ops b).status ≡ (record_all ops s).status_code
unfolding record_all on_op Tracing.record_all Tracing.on_op
buffered-status [] b s e = e
buffered-status (set_header k v ∷ ops) b s e = buffered-status ops b s e
buffered-status (add_header k v ∷ ops) b s e = buffered-status ops b s e
buffered-status (del_header k ∷ ops) b s e = buffered-status ops b s e
buffered-status (write_header code ∷ ops) b s e =
    buffered-status ops (record b { status = code }) (record s { status_code = code }) refl
buffered-status (write_body t ∷ ops) b s e = buffered-status ops b (on_op (write_body t) s) e

-- The bytes of all bodies.
unfoldable pub size : List WriteOp → ℕ
size [] = 0
size (write_body b ∷ ops) = length b + size ops
size (_ ∷ ops) = size ops

written-size :
    (ops : List WriteOp) (rec : StatusRecorder)
    → (record_all ops rec).written ≡ rec.written + size ops
unfolding record_all on_op size
written-size [] rec = omega arith
written-size (set_header k v ∷ ops) rec = written-size ops rec
written-size (add_header k v ∷ ops) rec = written-size ops rec
written-size (del_header k ∷ ops) rec = written-size ops rec
written-size (write_header code ∷ ops) rec = written-size ops (record rec { status_code = code })
written-size (write_body b ∷ ops) rec =
    let ih = written-size ops (record rec { written = rec.written + length b }) in omega arith

-- A handler writes its status once and before the body, or no status, and BytesWritten counts the
-- bytes of the bodies that were written. Then the access log gets a line just if the path of the
-- request is not skipped, with the status that the client receives, the level of that status, and
-- the length of the body that was written.
pub access_log-response :
    {W : Type 0} (clock : Clock W) (bytes_written : List WriteOp → ℕ) (skip : List Text)
    (next : Handler W) (r : Request) (h : Header) (log : Log) (w : W)
    → ((ops : List WriteOp) → bytes_written ops ≡ size ops)
    → IsOrderly false (next r h w).0
    → let (told, (log', w')) = access_log clock bytes_written skip next r h (log, w) in
      let got = response h told in
      log' ≡ (
        if member r.path skip
        then log
        else line_of
            (level_of got.status)
            r
            (record { status_code = got.status; written = length got.body })
            (clock.now w' - clock.now w)
          ∷ log)
unfolding access_log
access_log-response clock bytes_written skip next r h log w counts o =
    let ops = (next r h w).0 in
    let same = recorded h ops o in
    let code : (Tracing.record_all ops Tracing.new).status ≡ (response h ops).status =
      buffered-status ops Tracing.new new refl
      ∙ ap (λ (rec : StatusRecorder). rec.status_code) same in
    let bytes : bytes_written ops ≡ length (response h ops).body =
      omega (
        arith,
        counts ops,
        written-size ops new,
        ap (λ (rec : StatusRecorder). rec.written) same,
      ) in
    elim (Bool-cases (member r.path skip)) [
      | inl skipped ↦ rw skipped refl
      | inr noted ↦ rw (noted, code, bytes) refl
    ]
