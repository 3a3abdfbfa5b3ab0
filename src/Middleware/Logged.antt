-- ===== src/Middleware/Logged.antt =====
-- internal/middleware/logger.go and accesslog.go: the recorder that passes every call on, and the
-- lines that are logged of a request. The recorder of accesslog.go is that of tracing.go, which
-- does not declare the BytesWritten that is called on it: this is a parameter, a function of the
-- calls that the recorder has got. The log is a list, the last line first. The fields of a line
-- that are copied from the request are left out but its method and path. A line of logger.go has no
-- level, and stands as `info`; times are kept in nanoseconds where the code prints milliseconds.
pub mod Lines
use cascade_proxy.Middleware.Tracing
use cascade_proxy.Middleware.Tracing.{BufferedRecorder}
use cascade_proxy.Common.{
  ℕ, ◌+◌, ◌-◌, Bool, true, false, List, [], ◌∷◌, ◌++◌, leb, if◌then◌else◌, length, Text, ascii,
  text_eq, member,
}
use cascade_proxy.Http.{
  Header, Handler, Request, WriteOp, Clock, set_header, add_header, del_header, write_header,
  write_body, get, set,
}

-- ResponseRecorder, with the fields StatusCode and Written
pub record StatusRecorder : Type 0 where
  pub status_code : ℕ
  pub written : ℕ

abbrev pub new : StatusRecorder
new = record { status_code = 200; written = 0 }

-- Each call is passed on as it is.
unfoldable pub on_op : WriteOp → StatusRecorder → StatusRecorder
on_op (write_header code) rec = record rec { status_code = code }
on_op (write_body b) rec = record rec { written = rec.written + length b }
on_op _ rec = rec

unfoldable pub record_all : List WriteOp → StatusRecorder → StatusRecorder
unfolding on_op
record_all [] rec = rec
record_all (op ∷ ops) rec = record_all ops (on_op op rec)

pub data Level : Type 0 where
  info warn error : Level

pub record Line : Type 0 where
  pub level : Level
  pub method : Text
  pub path : Text
  pub status : ℕ
  pub bytes : ℕ
  pub duration : ℕ

abbrev pub Log : Type 0
Log = List Line

abbrev pub line_of : Level → Request → StatusRecorder → ℕ → Line
line_of level r rec duration = record {
  level = level;
  method = r.method;
  path = r.path;
  status = rec.status_code;
  bytes = rec.written;
  duration = duration;
}

-- the level of a status in accesslog.go
unfoldable pub level_of : ℕ → Level
level_of status = if leb 500 status then error else if leb 400 status then warn else info

abbrev pub default_skip_paths : List Text
default_skip_paths = ascii "/healthz" ∷ ascii "/readyz" ∷ []

module _ {W : Type 0} (clock : Clock W) where
  -- `Logger`
  unfoldable pub logger : Handler W → Handler (Log × W)
  unfolding record_all
  logger next r h (log, w) =
      let (ops, w') = next r h w in
      let rec = record_all ops new in
      (ops, (line_of info r rec (clock.now w' - clock.now w) ∷ log, w'))

  -- The handler that NewAccessLogMiddleware makes.
  unfoldable pub access_log : (List WriteOp → ℕ) → List Text → Handler W → Handler (Log × W)
  unfolding level_of
  access_log bytes_written skip next r h (log, w) =
      let (ops, w') = next r h w in
      let status = (Tracing.record_all ops Tracing.new).status in
      let rec : StatusRecorder = record { status_code = status; written = bytes_written ops } in
      if member r.path skip
      then (ops, (log, w'))
      else (ops, (line_of (level_of status) r rec (clock.now w' - clock.now w) ∷ log, w'))
