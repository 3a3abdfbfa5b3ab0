-- ===== src/Middleware/Recorder.antt =====
-- internal/middleware/response_recorder.go: a writer that records the status and the body on their
-- way to the writer that it wraps. `Header()` is the wrapped writer's, so the operations on the
-- header pass through.
pub mod Laws
pub mod Orderly
use cascade_proxy.Common.{
  ℕ, Bool, true, false, List, [], ◌∷◌, ◌++◌, ◌==◌, if◌then◌else◌, Text, length,
}
use cascade_proxy.Http.{WriteOp, set_header, add_header, del_header, write_header, write_body}

pub record Recorder : Type 0 where
  pub status : ℕ
  pub buf : Text
  pub wrote : Bool

-- NewResponseRecorder
abbrev pub new : Recorder
new = record { status = 0; buf = []; wrote = false }

-- `WriteHeader`: the new recorder, and what the wrapped writer is told.
unfoldable pub on_write_header : ℕ → Recorder → Recorder × List WriteOp
on_write_header code r =
    if r.wrote then (r, []) else (record r { status = code; wrote = true }, write_header code ∷ [])

-- `Write`
unfoldable pub on_write : Text → Recorder → Recorder × List WriteOp
unfolding on_write_header
on_write b r =
    let (r', ops) = if r.wrote then (r, []) else on_write_header 200 r in
    (record r' { buf = r'.buf ++ b }, ops ++ (write_body b ∷ []))

unfoldable pub on_op : WriteOp → Recorder → Recorder × List WriteOp
unfolding on_write_header on_write
on_op (set_header k v) r = (r, set_header k v ∷ [])
on_op (add_header k v) r = (r, add_header k v ∷ [])
on_op (del_header k) r = (r, del_header k ∷ [])
on_op (write_header code) r = on_write_header code r
on_op (write_body b) r = on_write b r

-- The recorder after a handler, and all that the wrapped writer is told.
unfoldable pub record_ops : List WriteOp → Recorder → Recorder × List WriteOp
unfolding on_op
record_ops [] r = (r, [])
record_ops (op ∷ ops) r =
    let (r', told) = on_op op r in let (r'', rest) = record_ops ops r' in (r'', told ++ rest)

unfoldable pub status : Recorder → ℕ
status r = if r.status == 0 then 200 else r.status

unfoldable pub body : Recorder → Text
body r = r.buf

unfoldable pub bytes_written : Recorder → ℕ
bytes_written r = length r.buf
