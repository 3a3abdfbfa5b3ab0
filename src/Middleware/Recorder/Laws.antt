-- ===== src/Middleware/Recorder/Laws.antt =====
-- The recorder is transparent, and records what the client receives.
use cascade_proxy.Common.{
  ℕ, ◌≡◌, ◌≢◌, refl, sym, ap, ◌∙◌, Bool, true, false, Option, none, some, List, [], ◌∷◌, ◌++◌,
  arith, Text, All, length,
}
use cascade_proxy.Http.{
  Header, WriteOp, set_header, add_header, del_header, write_header, write_body, Client, apply,
  apply_all, start, finish, response,
}
use cascade_proxy.Middleware.Recorder.{
  Recorder, new, on_op, record_ops, status, body, bytes_written,
}

-- No handler writes the status 0.
abbrev pub IsRealOp : WriteOp → Type 0
IsRealOp (write_header code) = code ≢ 0
IsRealOp _ = Unit

-- What the recorder knows of the status that was sent.
abbrev Knows : Bool → ℕ → Option (ℕ × Header) → Type 0
Knows false s none = s ≡ 0
Knows false s (some _) = ⊥
Knows true s none = ⊥
Knows true s (some (code, _)) = (s ≡ code) × (code ≢ 0)

-- The recorder agrees with the writer that it wraps, whose client is `c`.
abbrev Agrees : Recorder → Client → Type 0
Agrees r c = (r.buf ≡ c.body) × Knows r.wrote r.status c.sent

-- One operation keeps the agreement, and the wrapped writer comes to what the operation makes of
-- it.
abbrev Follows : WriteOp → Recorder → Client → Type 0
Follows op r c = Agrees (on_op op r).0 (apply c op) × (apply_all c (on_op op r).1 ≡ apply c op)

write_header-Follows :
    (s : ℕ) (w : Bool) (sent : Option (ℕ × Header)) (r : Recorder) (c : Client)
    → r.wrote ≡ w
    → c.sent ≡ sent
    → s ≢ 0
    → r.buf ≡ c.body
    → Knows w r.status sent
    → Follows (write_header s) r c
unfolding on_op apply apply_all
write_header-Follows s false none r c ew es real eb kn = ground arith
write_header-Follows s true (some (code, h)) r c ew es real eb kn = ground arith
write_header-Follows s false (some _) r c ew es real eb kn = elim kn [ ]
write_header-Follows s true none r c ew es real eb kn = elim kn [ ]

write_body-Follows :
    (b : Text) (w : Bool) (sent : Option (ℕ × Header)) (r : Recorder) (c : Client)
    → r.wrote ≡ w
    → c.sent ≡ sent
    → r.buf ≡ c.body
    → Knows w r.status sent
    → Follows (write_body b) r c
unfolding on_op apply apply_all
write_body-Follows b false none r c ew es eb kn = ground arith
write_body-Follows b true (some (code, h)) r c ew es eb kn = ground arith
write_body-Follows b false (some _) r c ew es eb kn = elim kn [ ]
write_body-Follows b true none r c ew es eb kn = elim kn [ ]

on_op-Follows :
    (op : WriteOp) (r : Recorder) (c : Client) → IsRealOp op → Agrees r c → Follows op r c
unfolding on_op apply apply_all
on_op-Follows (set_header k v) r c real h = (h, refl)
on_op-Follows (add_header k v) r c real h = (h, refl)
on_op-Follows (del_header k) r c real h = (h, refl)
on_op-Follows (write_header s) r c real (eb, kn) =
    write_header-Follows s r.wrote c.sent r c refl refl real eb kn
on_op-Follows (write_body b) r c real (eb, kn) =
    write_body-Follows b r.wrote c.sent r c refl refl eb kn

pub apply_all-append :
    (c : Client) (xs ys : List WriteOp) → apply_all c (xs ++ ys) ≡ apply_all (apply_all c xs) ys
unfolding apply_all
apply_all-append c [] ys = refl
apply_all-append c (x ∷ xs) ys = apply_all-append (apply c x) xs ys

record_ops-Agrees :
    (ops : List WriteOp) (r : Recorder) (c : Client)
    → All IsRealOp ops
    → Agrees r c
    → Agrees (record_ops ops r).0 (apply_all c ops)
      × (apply_all c (record_ops ops r).1 ≡ apply_all c ops)
unfolding record_ops apply_all
record_ops-Agrees [] r c real h = (h, refl)
record_ops-Agrees (op ∷ ops) r c (real, reals) h =
    let (h', same) = on_op-Follows op r c real h in
    let (end, rest) = record_ops-Agrees ops (on_op op r).0 (apply c op) reals h' in
    (
      end,
      apply_all-append c (on_op op r).1 (record_ops ops (on_op op r).0).1
          ∙ ap (λ d. apply_all d (record_ops ops (on_op op r).0).1) same
          ∙ rest,
    )

known_status :
    (r : Recorder) (w : Bool) (c : Client) (sent : Option (ℕ × Header))
    → r.wrote ≡ w
    → c.sent ≡ sent
    → Knows w r.status sent
    → status r ≡ (finish c).status
unfolding status
known_status r false c none ew es kn = ground arith
known_status r true c (some (code, h)) ew es kn = ground arith
known_status r false c (some _) ew es kn = elim kn [ ]
known_status r true c none ew es kn = elim kn [ ]

-- A handler that writes no status 0 has, through a recorder, the same effect on the client as
-- without it; and the recorder's status and body are those that the client receives, where a status
-- that was never written is 200.
pub record_ops-transparent :
    (h : Header) (ops : List WriteOp)
    → All IsRealOp ops
    → let (r, told) = record_ops ops new in
      (response h told ≡ response h ops)
      × (status r ≡ (response h ops).status)
      × (body r ≡ (response h ops).body)
      × (bytes_written r ≡ length (response h ops).body)
unfolding response body bytes_written
record_ops-transparent h ops real =
    let ((buf, kn), same) = record_ops-Agrees ops new (start h) real (refl, refl) in
    (
      ap finish same,
      known_status (record_ops ops new).0 _ (apply_all (start h) ops) _ refl refl kn,
      buf,
      ap length buf,
    )

-- Behind the recorder the wrapped writer goes on as behind the handler.
pub record_ops-append :
    (h : Header) (ops more : List WriteOp)
    → All IsRealOp ops
    → response h ((record_ops ops new).1 ++ more) ≡ response h (ops ++ more)
unfolding response
record_ops-append h ops more real =
    let (_, same) = record_ops-Agrees ops new (start h) real (refl, refl) in
    ap finish (
      apply_all-append (start h) (record_ops ops new).1 more
      ∙ ap (λ c. apply_all c more) same
      ∙ sym (apply_all-append (start h) ops more))
