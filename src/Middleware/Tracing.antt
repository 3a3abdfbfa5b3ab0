-- ===== src/Middleware/Tracing.antt =====
-- internal/middleware/tracing.go. The source of new identifiers is a parameter, and the log a list,
-- the last line first. Durations are kept in nanoseconds where the code prints milliseconds.
pub mod Traced
use cascade_proxy.Common.{ℕ, ◌-◌, List, [], ◌∷◌, Text, ascii, text_eq, if◌then◌else◌}
use cascade_proxy.Http.{
  Request, Handler, WriteOp, Clock, set_header, add_header, del_header, write_header, write_body,
  get, set,
}
use cascade_proxy.Middleware.Contexts.{InContext, with_value, trace_id_key, text_value}

abbrev pub trace_id_header : Text
trace_id_header = ascii "X-Trace-ID"

pub record BufferedRecorder : Type 0 where
  pub status : ℕ

-- NewBufferedResponseRecorder
abbrev pub new : BufferedRecorder
new = record { status = 200 }

-- Each call is passed on as it is; `WriteHeader` keeps its status.
unfoldable pub on_op : WriteOp → BufferedRecorder → BufferedRecorder
on_op (write_header code) b = record b { status = code }
on_op _ b = b

unfoldable pub record_all : List WriteOp → BufferedRecorder → BufferedRecorder
unfolding on_op
record_all [] b = b
record_all (op ∷ ops) b = record_all ops (on_op op b)

pub record Line : Type 0 where
  pub trace_id : Text
  pub method : Text
  pub path : Text
  pub status : ℕ
  pub duration : ℕ

-- the identifier that the request names, or else a new one
abbrev pub id_of : Request → Text → Text
id_of r fresh = let sent = get trace_id_header r.header in if text_eq sent [] then fresh else sent

-- The handler that NewTracingMiddleware makes.
unfoldable pub handle :
    {C W : Type 0} → Clock W → (W → Text × W) → InContext C W → InContext C (List Line × W)
unfolding record_all
handle clock new_id next ctx r h (log, w) =
    let (fresh, w0) = new_id w in
    let id = id_of r fresh in
    let w1 = if text_eq (get trace_id_header r.header) [] then w0 else w in
    let (ops, w') =
      next (with_value trace_id_key (text_value id) ctx) r (set trace_id_header id h) w1 in
    (
      set_header trace_id_header id ∷ ops,
      (
        record {
          trace_id = id;
          method = r.method;
          path = r.path;
          status = (record_all ops new).status;
          duration = clock.now w' - clock.now w1;
        }
            ∷ log,
        w',
      ),
    )
