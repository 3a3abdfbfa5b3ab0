-- ===== src/Middleware/BreachLog.antt =====
-- internal/middleware/breachlog.go. A ratio is a pair of numbers, the errors and the length, and
-- the threshold a fraction, so that the comparison is exact: the rounding of the `float64`
-- arithmetic is not modelled. A panic is `none`. The time of the last report is `none` at first,
-- which stands for the zero time, long ago.
pub mod Window
pub mod Reading
pub mod Reports
pub mod Runs
pub mod Concurrent
use cascade_proxy.Common.{
  ℕ, zero, suc, ◌+◌, ◌*◌, ◌%◌, Bool, true, false, ◌&&◌, ◌||◌, Option, none, some, List, [], ◌∷◌,
  ltb, leb, ◌==◌, if◌then◌else◌, length, set, replicate, Text, Dict, lookup, insert, or_else,
}
use cascade_proxy.Http.{Header, Request, Handler, Clock, WriteOp}
use cascade_proxy.Middleware.Recorder.{record_ops, status}
use cascade_proxy.Middleware.Recorder

-- The threshold is `errors` of `out_of`.
pub record Config : Type 0 where
  pub window_size : ℕ
  pub errors : ℕ
  pub out_of : ℕ

abbrev pub default_config : Config
default_config = record { window_size = 20; errors = 1; out_of = 2 }

pub record BreachWindow : Type 0 where
  pub codes : List ℕ
  pub pos : ℕ
  pub full : Bool
  pub logged : Option ℕ

-- &breachWindow{codes: make([]int, size)}
abbrev pub fresh : ℕ → BreachWindow
fresh size = record { codes = replicate size 0; pos = 0; full = false; logged = none }

-- The loop over the first codes.
unfoldable pub count_errors : ℕ → List ℕ → ℕ
count_errors zero codes = 0
count_errors (suc n) [] = 0
count_errors (suc n) (code ∷ codes) =
    let rest = count_errors n codes in if leb 500 code then suc rest else rest

-- time.Since(w.logged) > 5*time.Second
abbrev pub long_ago : ℕ → Option ℕ → Bool
long_ago now none = true
long_ago now (some t) = ltb (t + 5_000_000_000) now

-- A ratio of errors to codes.
pub record Ratio : Type 0 where
  pub errors : ℕ
  pub length : ℕ

-- the writing of a code, and the step of the position
unfoldable pub write_code : ℕ → ℕ → BreachWindow → BreachWindow
write_code code size w =
    let pos' = (w.pos + 1) % size in
    record w { codes = set w.codes w.pos code; pos = pos'; full = w.full || pos' == 0 }

-- what is read of the window then
unfoldable pub read_window : ℕ → ℕ → BreachWindow → Ratio × Bool
unfolding count_errors
read_window now size w =
    let len = if w.full then size else w.pos in
    if len == 0 then (record { errors = 0; length = 0 }, false) else (
      record { errors = count_errors len w.codes; length = len },
      w.full && long_ago now w.logged,
    )

-- The method `record`: an index out of range panics.
unfoldable pub record_code : ℕ → ℕ → ℕ → BreachWindow → Option (Ratio × Bool × BreachWindow)
unfolding write_code read_window
record_code now code size w =
    if ltb w.pos (length w.codes)
    then (let w' = write_code code size w in
        let (ratio, breach) = read_window now size w' in some (ratio, breach, w'))
    else none

-- ratio >= cfg.ErrorThreshold
abbrev pub reaches : Config → Ratio → Bool
reaches cfg ratio = leb (cfg.errors * ratio.length) (ratio.errors * cfg.out_of)

-- The windows, and the reports that were logged, the last one first: key, ratio and time.
pub record BreachLog : Type 0 where
  pub windows : Dict BreachWindow
  pub reports : List (Text × Ratio × ℕ)

abbrev pub empty : BreachLog
empty = record { windows = []; reports = [] }

abbrev pub window_of : Config → Text → BreachLog → BreachWindow
window_of cfg key log = or_else (lookup key log.windows) (fresh cfg.window_size)

-- The first critical section: the code is written, and the window read.
unfoldable pub judge : Config → ℕ → Text → ℕ → BreachLog → Option (Ratio × Bool × BreachLog)
unfolding record_code
judge cfg now key code log = elim (record_code now code cfg.window_size (window_of cfg key log)) [
  | none ↦ none
  | some (ratio, breach, w) ↦
      some (ratio, breach, record log { windows = insert key w log.windows })
]

-- The second: the time of the report is set. Then it is logged.
unfoldable pub stamp : Config → ℕ → Text → Ratio → BreachLog → BreachLog
stamp cfg now key ratio log = record {
  windows = insert key (record (window_of cfg key log) { logged = some now }) log.windows;
  reports = (key, ratio, now) ∷ log.reports;
}

-- What the handler does once `next` is done, of a request of which no other comes between the two
-- critical sections; they read the clock at one time.
unfoldable pub observe : Config → ℕ → Text → ℕ → BreachLog → Option BreachLog
unfolding judge stamp
observe cfg now key code log = elim (judge cfg now key code log) [
  | none ↦ none
  | some (ratio, breach, log') ↦
      some (if breach && reaches cfg ratio then stamp cfg now key ratio log' else log')
]

-- The handler that NewBreachLogMiddleware makes. `key_of` is cfg.KeyFunc; the log is `none` once
-- the handler has panicked.
unfoldable pub handle :
    {W : Type 0} → Clock W → (Request → Text) → Config → Handler W → Handler (Option BreachLog × W)
unfolding observe
handle clock key_of cfg next r h (log, w) =
    let (ops, w') = next r h w in
    let (rec, told) = record_ops ops Recorder.new in
    (
      told,
      (
        elim log [
          | none ↦ none
          | some log' ↦ observe cfg (clock.now w') (key_of r) (status rec) log'
        ],
        w',
      ),
    )
