-- ===== src/Middleware/BreachLog/Concurrent.antt =====
-- Requests whose two critical sections fall between those of others.
use cascade_proxy.Common.{
  ℕ, ◌+◌, ◌≤◌, ◌<◌, ◌≡◌, refl, sym, ap, ◌∙◌, Bool, true, false, ◌&&◌, Option, none, some, List, [],
  ◌∷◌, ◌++◌, arith, if◌then◌else◌, Bool-cases, inl, inr, Text, text_eq, text_eq_iff, subst, ltb,
  length, lookup, All,
}
use cascade_proxy.Middleware.BreachLog.{
  Config, BreachWindow, Ratio, BreachLog, empty, judge, stamp, window_of, reaches, record_code,
  long_ago,
}
use cascade_proxy.Middleware.BreachLog.Reports.{
  times_of, window_of-insert, judge-record_code, seen, quiet, written, logged-write_code,
  reported_late,
}

-- The log, the reports between a request's two critical sections, and the time.
pub record System : Type 0 where
  pub log : BreachLog
  pub pending : List (Text × Ratio)
  pub now : ℕ

abbrev pub init : ℕ → System
init now = record { log = empty; pending = []; now = now }

pub data Step (cfg : Config) (s : System) : System → Type 0 where
  wait : (later : ℕ) → s.now ≤ later → Step cfg s (record s { now = later })
  -- a first critical section; what is to be reported goes on to the second
  judged :
      (key : Text) (code : ℕ) (ratio : Ratio) (breach : Bool) (log : BreachLog)
      → judge cfg s.now key code s.log ≡ some (ratio, breach, log)
      → Step cfg s (record s {
        log = log;
        pending = if breach && reaches cfg ratio then (key, ratio) ∷ s.pending else s.pending;
      })
  stamped :
      (before after : List (Text × Ratio)) (key : Text) (ratio : Ratio)
      → s.pending ≡ before ++ ((key, ratio) ∷ after)
      → Step cfg s (record s { log = stamp cfg s.now key ratio s.log; pending = before ++ after })

pub data Run (cfg : Config) (s : System) : System → Type 0 where
  none_yet : Run cfg s s
  then_ : {t u : System} → Run cfg s t → Step cfg t u → Run cfg s u

-- The reports with these times are no later than the last one.
abbrev UpTo : Option ℕ → List ℕ → Type 0
UpTo none ts = ts ≡ []
UpTo (some last) ts = All (λ t. t ≤ last) ts

module _ (cfg : Config) where
  -- A window has the time of the last report of its key.
  abbrev IsStamped : System → Type 0
  IsStamped s =
      (key : Text)
      → UpTo (window_of cfg key s.log).logged (times_of key s.log.reports)
        × All (λ t. t ≤ s.now) (times_of key s.log.reports)

  later_on :
      (now later : ℕ) (ts : List ℕ) → now ≤ later → All (λ t. t ≤ now) ts → All (λ t. t ≤ later) ts
  later_on now later [] le all_ = tt
  later_on now later (t ∷ ts) le (one, all_) = (omega arith, later_on now later ts le all_)

  -- A first critical section that does not panic has written the code.
  judge_lem :
      (now : ℕ) (key : Text) (code : ℕ) (ratio : Ratio) (breach : Bool) (log log' : BreachLog)
      → judge cfg now key code log ≡ some (ratio, breach, log')
      → ((seen cfg key now code log).1 ≡ breach) × (quiet cfg key now code log ≡ log')
  unfolding record_code
  judge_lem now key code ratio breach log log' e =
      let w = window_of cfg key log in
      let sight = seen cfg key now code log in
      elim (Bool-cases (ltb w.pos (length w.codes))) [
        | inl room ↦
            let done =
              judge-record_code cfg key now code log
                (some (sight.0, sight.1, written cfg key now code log)) (rw room refl) in
            let same = sym done ∙ e in
            (
              ap (λ o. elim o [ none ↦ false | some (_, b, _) ↦ b ]) same,
              ap (λ o. elim o [ none ↦ log | some (_, _, l) ↦ l ]) same,
            )
        | inr no_room ↦
            let panicked = judge-record_code cfg key now code log none (rw no_room refl) in
            let impossible : none ≡ some (ratio, breach, log') = sym panicked ∙ e in cc
      ]

  -- It leaves the times as they are.
  quiet-logged :
      (key : Text) (now code : ℕ) (log : BreachLog) (j : Text)
      → (window_of cfg j (quiet cfg key now code log)).logged ≡ (window_of cfg j log).logged
  quiet-logged key now code log j =
      let w = written cfg key now code log in
      let there = window_of-insert cfg key j w log log.reports in
      elim (Bool-cases (text_eq key j)) [
        | inl own ↦
            ap (λ (x : BreachWindow). x.logged) (rw own at there)
            ∙ logged-write_code code cfg.window_size (window_of cfg key log)
            ∙ ap (λ i. (window_of cfg i log).logged) ((text_eq_iff key j).0 own)
        | inr other ↦ ap (λ (x : BreachWindow). x.logged) (rw other at there)
      ]

  -- A second one sets the time of its key.
  stamp-logged :
      (key : Text) (now : ℕ) (ratio : Ratio) (log : BreachLog) (j : Text)
      → (window_of cfg j (stamp cfg now key ratio log)).logged
        ≡ (if text_eq key j then some now else (window_of cfg j log).logged)
  unfolding stamp
  stamp-logged key now ratio log j =
      let there =
        window_of-insert cfg key j (record (window_of cfg key log) { logged = some now }) log
          ((key, ratio, now) ∷ log.reports) in
      elim (Bool-cases (text_eq key j)) [
        | inl own ↦ rw own (ap (λ (x : BreachWindow). x.logged) (rw own at there))
        | inr other ↦ rw other (ap (λ (x : BreachWindow). x.logged) (rw other at there))
      ]

  Step-IsStamped : {s t : System} → Step cfg s t → IsStamped s → IsStamped t
  Step-IsStamped {s} (wait later le) stamps key =
      let (last, past) = stamps key in (last, later_on s.now later _ le past)
  Step-IsStamped {s} (judged key code ratio breach log e) stamps j =
      let (last, past) = stamps j in
      let (_, same) = judge_lem s.now key code ratio breach s.log log e in
      subst
        (λ (l : BreachLog).
          UpTo (window_of cfg j l).logged (times_of j l.reports)
          × All (λ t. t ≤ s.now) (times_of j l.reports))
        same (rw (quiet-logged key s.now code s.log j) last, past)
  Step-IsStamped {s} (stamped before after key ratio there) stamps j =
      let (last, past) = stamps j in
      let time = stamp-logged key s.now ratio s.log j in
      elim (Bool-cases (text_eq key j)) [
        | inl own ↦
            unfold stamp in
            (rw (rw own at time, own) (omega arith, past), rw own (omega arith, past))
        | inr other ↦ unfold stamp in (rw (rw other at time, other) last, rw other past)
      ]

  Run-IsStamped : {s t : System} → Run cfg s t → IsStamped s → IsStamped t
  Run-IsStamped none_yet stamps = stamps
  Run-IsStamped (then_ run step) stamps = Step-IsStamped step (Run-IsStamped run stamps)

  long_since :
      (now : ℕ) (last : Option ℕ) (ts : List ℕ)
      → long_ago now last ≡ true
      → UpTo last ts
      → All (λ t. t + 5_000_000_000 < now) ts
  long_since now none ts late none_ = rw none_ tt
  long_since now (some last) [] late all_ = tt
  long_since now (some last) (t ∷ ts) late (le, all_) =
      (ground arith, long_since now (some last) ts late all_)

  -- However the critical sections of requests fall between those of others, whenever the first one
  -- of a request finds a breach, all reports of its key that were logged before are more than five
  -- seconds ago. The clock does not go back, and nothing is logged at first.
  pub judged_late :
      {s : System} (began : ℕ) (key : Text) (code : ℕ) (ratio : Ratio) (log : BreachLog)
      → Run cfg (init began) s
      → judge cfg s.now key code s.log ≡ some (ratio, true, log)
      → All (λ t. t + 5_000_000_000 < s.now) (times_of key s.log.reports)
  unfolding lookup
  judged_late {s} began key code ratio log run e =
      let (last, _) = Run-IsStamped run (λ j. (refl, tt)) key in
      let (breach, _) = judge_lem s.now key code ratio true s.log log e in
      let late =
        reported_late s.now cfg.window_size (written cfg key s.now code s.log) breach ∙ refl in
      let stamp_ = logged-write_code code cfg.window_size (window_of cfg key s.log) in
      long_since s.now (window_of cfg key s.log).logged _ (sym (ap (long_ago s.now) stamp_) ∙ late)
        last

  -- Two requests of a key whose first critical sections both find a breach are both reported, if
  -- neither has come to its second one: then there are two reports at one time.
  both_reported :
      (s : System) (key : Text) (one two : Ratio)
      → s.pending ≡ (key, one) ∷ (key, two) ∷ []
      → Run cfg s
          (record s { log = stamp cfg s.now key two (stamp cfg s.now key one s.log); pending = [] })
  both_reported s key one two waiting =
      then_ (then_ none_yet (stamped [] ((key, two) ∷ []) key one waiting))
        (stamped [] [] key two refl)
