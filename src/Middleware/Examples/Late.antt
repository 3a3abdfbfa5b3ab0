-- ===== src/Middleware/Examples/Late.antt =====
-- Two requests of one key, of which the second comes when the first has been reported.
use cascade_proxy.Common.{
  ◌+◌, ◌<◌, ◌≡◌, refl, true, none, some, [], ◌∷◌, arith, All, ascii, text_eq, lookup, insert,
}
use cascade_proxy.Middleware.BreachLog
use cascade_proxy.Middleware.BreachLog.{
  Ratio, BreachWindow, BreachLog, empty, judge, stamp, record_code, write_code, read_window,
  count_errors,
}
use cascade_proxy.Middleware.BreachLog.Reports.{times_of}
use cascade_proxy.Middleware.BreachLog.Concurrent.{
  System, init, Run, none_yet, then_, wait, judged, stamped, judged_late,
}

-- A window of one code.
abbrev watching : BreachLog.Config
watching = record { window_size = 1; errors = 1; out_of = 2 }

abbrev all_failed : Ratio
all_failed = record { errors = 1; length = 1 }

abbrev judged_once : BreachLog
judged_once = record {
  windows =
      insert (ascii "/a") (record { codes = 500 ∷ []; pos = 0; full = true; logged = none }) [];
  reports = [];
}

abbrev reported : System
reported = record {
  log = stamp watching 5 (ascii "/a") all_failed judged_once;
  pending = [];
  now = 5_000_000_006;
}

first_breach : judge watching 5 (ascii "/a") 500 empty ≡ some (all_failed, true, judged_once)
unfolding judge record_code write_code read_window count_errors lookup insert ascii
first_breach = refl

reporting : Run watching (init 5) reported
reporting =
    then_
      (then_ (then_ none_yet (judged (ascii "/a") 500 all_failed true judged_once first_breach))
        (stamped [] [] (ascii "/a") all_failed refl))
      (wait 5_000_000_006 (omega arith))

abbrev judged_twice : BreachLog
judged_twice = record {
  windows =
      insert (ascii "/a") (record { codes = 503 ∷ []; pos = 0; full = true; logged = some 5 })
        reported.log.windows;
  reports = reported.log.reports;
}

second_breach :
    judge watching 5_000_000_006 (ascii "/a") 503 reported.log
    ≡ some (all_failed, true, judged_twice)
unfolding judge stamp record_code write_code read_window count_errors lookup insert text_eq ascii
second_breach = refl

judged_late_example :
    All (λ t. t + 5_000_000_000 < 5_000_000_006) (times_of (ascii "/a") reported.log.reports)
judged_late_example =
    judged_late watching 5 (ascii "/a") 503 all_failed judged_twice reporting second_breach
