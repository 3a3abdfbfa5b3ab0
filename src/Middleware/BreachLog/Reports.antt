-- ===== src/Middleware/BreachLog/Reports.antt =====
-- The log over the requests of all keys: the windows are apart, and the reports of a key too.
use cascade_proxy.Common.{
  ℕ, ◌+◌, ◌<◌, ◌≡◌, refl, sym, ap, ◌∙◌, subst, Bool, true, false, ◌&&◌, Option, none, some, List,
  [], ◌∷◌, ◌++◌, arith, if◌then◌else◌, Bool-cases, inl, inr, Text, text_eq, text_eq_iff,
  text_eq_refl, insert, lookup-insert, append-nil,
}
use cascade_proxy.Middleware.BreachLog.{
  Config, BreachWindow, Ratio, write_code, read_window, record_code, reaches, BreachLog, observe,
  long_ago, judge, stamp, window_of,
}
use cascade_proxy.Middleware.BreachLog.Window.{Remembers, write_code-Remembers}
use cascade_proxy.Middleware.BreachLog.Reading.{in_range, Remembers-logged}

-- The requests in their order: the key, the time and the status.
abbrev pub History : Type 0
History = List (Text × ℕ × ℕ)

unfoldable pub observe_all : Config → History → BreachLog → Option BreachLog
observe_all cfg [] log = some log
observe_all cfg ((key, now, code) ∷ hist) log = elim (observe cfg now key code log) [
  | none ↦ none
  | some log' ↦ observe_all cfg hist log'
]

-- The statuses of one key.
abbrev pub codes_of : Text → History → List ℕ
codes_of key [] = []
codes_of key ((j, _, code) ∷ hist) =
    if text_eq j key then code ∷ codes_of key hist else codes_of key hist

-- The times of the reports of one key, the last one first.
abbrev pub times_of : Text → List (Text × Ratio × ℕ) → List ℕ
times_of key [] = []
times_of key ((j, _, t) ∷ reports) =
    if text_eq j key then t ∷ times_of key reports else times_of key reports

-- Each is more than five seconds after the one before it.
abbrev pub IsSpaced : List ℕ → Type 0
IsSpaced [] = Unit
IsSpaced (t ∷ []) = Unit
IsSpaced (t ∷ t' ∷ ts) = (t' + 5_000_000_000 < t) × IsSpaced (t' ∷ ts)

abbrev first : List ℕ → Option ℕ
first [] = none
first (t ∷ ts) = some t

-- What holds of the log for one key, after these statuses.
pub record Keeps (cfg : Config) (key : Text) (past : List ℕ) (log : BreachLog) : Type 0 where
  pub remembers : Remembers cfg.window_size past (window_of cfg key log)
  pub stamped : (window_of cfg key log).logged ≡ first (times_of key log.reports)
  pub spaced : IsSpaced (times_of key log.reports)

IsSpaced-cons :
    (now : ℕ) (ts : List ℕ) → long_ago now (first ts) ≡ true → IsSpaced ts → IsSpaced (now ∷ ts)
IsSpaced-cons now [] h s = tt
IsSpaced-cons now (t ∷ ts) h s = (ground arith, s)

pub recorded :
    (cfg : Config) (past : List ℕ) (now code : ℕ) (w : BreachWindow)
    → Remembers cfg.window_size past w
    → record_code now code cfg.window_size w
      ≡ some (
        (read_window now cfg.window_size (write_code code cfg.window_size w)).0,
        (read_window now cfg.window_size (write_code code cfg.window_size w)).1,
        write_code code cfg.window_size w,
      )
unfolding record_code
recorded cfg past now code w m = let there = in_range m in ground arith

pub logged-write_code :
    (code size : ℕ) (w : BreachWindow) → (write_code code size w).logged ≡ w.logged
unfolding write_code
logged-write_code code size w = refl

-- What is reported was last reported long ago.
pub reported_late :
    (now size : ℕ) (w : BreachWindow)
    → (read_window now size w).1 ≡ true
    → long_ago now w.logged ≡ true
unfolding read_window
reported_late now size w e = ground arith

pub window_of-insert :
    (cfg : Config) (key j : Text) (w : BreachWindow) (log : BreachLog)
    (reports : List (Text × Ratio × ℕ))
    → window_of cfg j (record { windows = insert key w log.windows; reports = reports })
      ≡ (if text_eq key j then w else window_of cfg j log)
window_of-insert cfg key j w log reports = rw (lookup-insert key j w log.windows) (ground arith)

module _ (cfg : Config) (key : Text) (now code : ℕ) (log : BreachLog) where
  -- The window of the key with the code in it, and whether it is reported.
  abbrev pub written : BreachWindow
  written = write_code code cfg.window_size (window_of cfg key log)

  abbrev pub seen : Ratio × Bool
  seen = read_window now cfg.window_size written

  abbrev pub quiet : BreachLog
  quiet = record log { windows = insert key written log.windows }

  abbrev reported : BreachLog
  reported = stamp cfg now key seen.0 quiet

  abbrev pub next_log : BreachLog
  next_log = if seen.1 && reaches cfg seen.0 then reported else quiet

  -- the first critical section behind the method `record`
  abbrev pub judge_of : Option (Ratio × Bool × BreachWindow) → Option (Ratio × Bool × BreachLog)
  judge_of o = elim o [
    | none ↦ none
    | some (ratio, breach, w) ↦
        some (ratio, breach, record log { windows = insert key w log.windows })
  ]

  pub judge-record_code :
      (o : Option (Ratio × Bool × BreachWindow))
      → record_code now code cfg.window_size (window_of cfg key log) ≡ o
      → judge cfg now key code log ≡ judge_of o
  unfolding judge
  judge-record_code o e = ap judge_of e

  pub observe-some :
      (past : List ℕ)
      → Remembers cfg.window_size past (window_of cfg key log)
      → observe cfg now key code log ≡ some next_log
  unfolding observe
  observe-some past m =
      ap
        (λ o. elim o [
          | none ↦ none
          | some (ratio, breach, log') ↦
              some (if breach && reaches cfg ratio then stamp cfg now key ratio log' else log')
        ])
        (judge-record_code _ (recorded cfg past now code (window_of cfg key log) m))

  -- the windows behind a report
  reported-window :
      (j : Text)
      → window_of cfg j reported
        ≡ (if text_eq key j then record written { logged = some now } else window_of cfg j log)
  unfolding stamp
  reported-window j =
      let here = rw (text_eq_refl key) at (window_of-insert cfg key key written log log.reports) in
      let there = window_of-insert cfg key j written log log.reports in
      let both =
        window_of-insert cfg key j (record (window_of cfg key quiet) { logged = some now }) quiet
          reported.reports in
      elim (Bool-cases (text_eq key j)) [
        | inl own ↦ rw own (rw own at both ∙ rw here refl)
        | inr other ↦ rw other (rw other at both ∙ rw other at there)
      ]

  -- Another key keeps what it had.
  other-Keeps :
      (j : Text) (past : List ℕ)
      → text_eq key j ≡ false
      → Keeps cfg j past log
      → Keeps cfg j past next_log
  unfolding stamp
  other-Keeps j past other k =
      let same = window_of-insert cfg key j written log log.reports in
      let same' = reported-window j in
      elim (Bool-cases (seen.1 && reaches cfg seen.0)) [
        | inl breach ↦ rw breach (record {
          remembers = rw (same', other) k.remembers;
          stamped = rw (same', other) k.stamped;
          spaced = rw other k.spaced;
        })
        | inr calm ↦ rw calm (record {
          remembers = rw (same, other) k.remembers;
          stamped = rw (same, other) k.stamped;
          spaced = k.spaced;
        })
      ]

  own-Keeps :
      (past : List ℕ)
      → 0 < cfg.window_size
      → Keeps cfg key past log
      → Keeps cfg key (past ++ (code ∷ [])) next_log
  unfolding stamp
  own-Keeps past some_ k =
      let now_in : Remembers cfg.window_size (past ++ (code ∷ [])) written =
        write_code-Remembers cfg.window_size past (window_of cfg key log) code some_ k.remembers in
      let stamp : written.logged ≡ first (times_of key log.reports) =
        logged-write_code code cfg.window_size (window_of cfg key log) ∙ k.stamped in
      let same = window_of-insert cfg key key written log log.reports in
      let same' = reported-window key in
      let own = text_eq_refl key in
      elim (Bool-cases (seen.1 && reaches cfg seen.0)) [
        | inl breach ↦
            let late : long_ago now written.logged ≡ true =
              reported_late now cfg.window_size written (ground arith) in
            rw breach (record {
              remembers =
                  rw (same', own)
                    (Remembers-logged cfg.window_size (past ++ (code ∷ [])) written (some now)
                      now_in);
              stamped = rw (same', own) refl;
              spaced = rw own (
                  IsSpaced-cons now (times_of key log.reports)
                    (sym (ap (long_ago now) stamp) ∙ late) k.spaced);
            })
        | inr calm ↦ rw calm (record {
          remembers = rw (same, own) now_in;
          stamped = rw (same, own) stamp;
          spaced = k.spaced;
        })
      ]

  pub step-Keeps :
      (j : Text) (past : List ℕ)
      → 0 < cfg.window_size
      → Keeps cfg j past log
      → Keeps cfg j (past ++ codes_of j ((key, now, code) ∷ [])) next_log
  step-Keeps j past some_ k = elim (Bool-cases (text_eq key j)) [
    | inl own ↦
        let same = (text_eq_iff key j).0 own in
        rw own (
          subst (λ i. Keeps cfg i (past ++ (code ∷ [])) next_log) same
            (own-Keeps past some_ (subst (λ i. Keeps cfg i past log) (sym same) k)))
    | inr other ↦ rw (other, append-nil past) (other-Keeps j past other k)
  ]
