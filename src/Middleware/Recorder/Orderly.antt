-- ===== src/Middleware/Recorder/Orderly.antt =====
-- What the wrapped writer is told: statuses as the handler writes them, one at most.
use cascade_proxy.Common.{
  ℕ, ◌≡◌, refl, Bool, true, false, List, [], ◌∷◌, ◌++◌, arith, All, ◌≢◌, Text,
}
use cascade_proxy.Http.{
  WriteOp, http_error, set_header, add_header, del_header, write_header, write_body,
}
use cascade_proxy.Middleware.Recorder.{Recorder, on_op, record_ops}
use cascade_proxy.Middleware.Recorder.Laws.{IsRealOp}
use cascade_proxy.Middleware.Logged.Lines.{IsOrderly}

ok_IsRealOp : IsRealOp (write_header 200)
ok_IsRealOp e = absurd (ground arith)

pub http_error-IsRealOp :
    (message : Text) (code : ℕ) → code ≢ 0 → All IsRealOp (http_error message code)
http_error-IsRealOp message code some_ = (tt, (tt, (some_, (tt, tt))))

-- No status is written but before the body, and once at most.
pub record_ops-IsOrderly :
    (sent : Bool) (ops : List WriteOp) (r : Recorder)
    → r.wrote ≡ sent
    → IsOrderly sent (record_ops ops r).1
unfolding record_ops on_op
record_ops-IsOrderly sent [] r e = tt
record_ops-IsOrderly false (set_header k v ∷ ops) r e = record_ops-IsOrderly false ops r e
record_ops-IsOrderly true (set_header k v ∷ ops) r e = record_ops-IsOrderly true ops r e
record_ops-IsOrderly false (add_header k v ∷ ops) r e = record_ops-IsOrderly false ops r e
record_ops-IsOrderly true (add_header k v ∷ ops) r e = record_ops-IsOrderly true ops r e
record_ops-IsOrderly false (del_header k ∷ ops) r e = record_ops-IsOrderly false ops r e
record_ops-IsOrderly true (del_header k ∷ ops) r e = record_ops-IsOrderly true ops r e
record_ops-IsOrderly false (write_header code ∷ ops) r e =
    rw e (record_ops-IsOrderly true ops (record r { status = code; wrote = true }) refl)
record_ops-IsOrderly true (write_header code ∷ ops) r e =
    rw e (record_ops-IsOrderly true ops (record r { wrote = true }) refl)
record_ops-IsOrderly false (write_body b ∷ ops) r e =
    rw e (
      record_ops-IsOrderly true ops (record r { status = 200; wrote = true; buf = r.buf ++ b })
        refl)
record_ops-IsOrderly true (write_body b ∷ ops) r e =
    rw e (record_ops-IsOrderly true ops (record r { buf = r.buf ++ b; wrote = true }) refl)

-- No status 0 is written if the handler writes none.
pub record_ops-IsRealOp :
    (sent : Bool) (ops : List WriteOp) (r : Recorder)
    → r.wrote ≡ sent
    → All IsRealOp ops
    → All IsRealOp (record_ops ops r).1
unfolding record_ops on_op
record_ops-IsRealOp sent [] r e real = tt
record_ops-IsRealOp sent (set_header k v ∷ ops) r e (_, real) =
    (tt, record_ops-IsRealOp sent ops r e real)
record_ops-IsRealOp sent (add_header k v ∷ ops) r e (_, real) =
    (tt, record_ops-IsRealOp sent ops r e real)
record_ops-IsRealOp sent (del_header k ∷ ops) r e (_, real) =
    (tt, record_ops-IsRealOp sent ops r e real)
record_ops-IsRealOp false (write_header code ∷ ops) r e (some_, real) =
    rw e (some_, record_ops-IsRealOp true ops (record r { status = code; wrote = true }) refl real)
record_ops-IsRealOp true (write_header code ∷ ops) r e (_, real) =
    rw e (record_ops-IsRealOp true ops (record r { wrote = true }) refl real)
record_ops-IsRealOp false (write_body b ∷ ops) r e (_, real) =
    let rest =
      record_ops-IsRealOp true ops (record r { status = 200; wrote = true; buf = r.buf ++ b }) refl
        real in
    rw e (ok_IsRealOp, (tt, rest))
record_ops-IsRealOp true (write_body b ∷ ops) r e (_, real) =
    rw e (tt, record_ops-IsRealOp true ops (record r { buf = r.buf ++ b; wrote = true }) refl real)
