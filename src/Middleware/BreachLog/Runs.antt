-- ===== src/Middleware/BreachLog/Runs.antt =====
-- The breach log over whole runs.
use cascade_proxy.Common.{
  ℕ, ◌<◌, min, ◌≡◌, ◌≢◌, ◌↔◌, refl, ap, subst, none, some, List, [], ◌∷◌, ◌++◌, arith, ltb, length,
  Bool-cases, inl, inr, Text, text_eq, lookup, length-append, append_assoc, append-nil,
}
use cascade_proxy.Middleware.BreachLog.{
  Config, Ratio, write_code, read_window, record_code, BreachLog, empty, observe, judge, window_of,
}
use cascade_proxy.Middleware.BreachLog.Window.{errors_in, write_code-Remembers, fresh-Remembers}
use cascade_proxy.Middleware.BreachLog.Reading.{last, read_window-Remembers}
use cascade_proxy.Middleware.BreachLog.Reports.{
  History, observe_all, codes_of, times_of, IsSpaced, recorded, Keeps, step-Keeps, next_log,
  observe-some,
}

empty-Keeps : (cfg : Config) (j : Text) → 0 < cfg.window_size → Keeps cfg j [] empty
unfolding lookup
empty-Keeps cfg j some_ = record {
  remembers = fresh-Remembers cfg.window_size some_;
  stamped = refl;
  spaced = tt;
}

codes_of-cons :
    (j key : Text) (now code : ℕ) (hist : History) (past : List ℕ)
    → (past ++ codes_of j ((key, now, code) ∷ [])) ++ codes_of j hist
      ≡ past ++ codes_of j ((key, now, code) ∷ hist)
codes_of-cons j key now code hist past = elim (Bool-cases (text_eq key j)) [
  | inl own ↦ rw own (append_assoc past (code ∷ []) (codes_of j hist))
  | inr other ↦ rw (other, append-nil past) refl
]

observe_all-Keeps :
    (cfg : Config) (hist : History) (log : BreachLog) (past : Text → List ℕ)
    → 0 < cfg.window_size
    → ((j : Text) → Keeps cfg j (past j) log)
    → (log' : BreachLog) × (observe_all cfg hist log ≡ some log')
      × ((j : Text) → Keeps cfg j (past j ++ codes_of j hist) log')
unfolding observe_all
observe_all-Keeps cfg [] log past some_ k = (log, refl, λ j. rw (append-nil (past j)) (k j))
observe_all-Keeps cfg ((key, now, code) ∷ hist) log past some_ k =
    let past' : Text → List ℕ = λ j. past j ++ codes_of j ((key, now, code) ∷ []) in
    let (log', ran, kept) =
      observe_all-Keeps cfg hist (next_log cfg key now code log) past' some_
        (λ j. step-Keeps cfg key now code log j (past j) some_ (k j)) in
    (
      log',
      rw (observe-some cfg key now code log (past key) (k key).remembers, observe_all) ran,
      λ j.
          subst (λ codes. Keeps cfg j codes log') (codes_of-cons j key now code hist (past j))
            (kept j),
    )

-- With a window of one code or more the handler never panics, and after any requests, of all keys,
-- the ratio that it reads for a further request is that of the errors among the last statuses of
-- the request's own key, this one included, to the number of these: as many as the window holds, or
-- all of them where there are fewer.
pub observe_all-window :
    (cfg : Config) (hist : History) (key : Text) (now code : ℕ)
    → 0 < cfg.window_size
    → (log : BreachLog) × (observe_all cfg hist empty ≡ some log)
      × (let codes = codes_of key hist ++ (code ∷ []) in
          let w = write_code code cfg.window_size (window_of cfg key log) in
          let (ratio, breach) = read_window now cfg.window_size w in
          (record_code now code cfg.window_size (window_of cfg key log) ≡ some (ratio, breach, w))
          × (ratio.errors ≡ errors_in (last cfg.window_size codes))
          × (ratio.length ≡ min (length codes) cfg.window_size))
observe_all-window cfg hist key now code some_ =
    let (log, ran, kept) =
      observe_all-Keeps cfg hist empty (λ _. []) some_ (λ j. empty-Keeps cfg j some_) in
    let w = window_of cfg key log in
    let m = (kept key).remembers in
    let codes = codes_of key hist ++ (code ∷ []) in
    let ratio =
      read_window-Remembers now cfg.window_size codes (write_code code cfg.window_size w) some_
        (omega (arith, length-append (codes_of key hist) (code ∷ [])))
        (write_code-Remembers cfg.window_size (codes_of key hist) w code some_ m) in
    (
      log,
      ran,
      (
        recorded cfg (codes_of key hist) now code w m,
        ap (λ (r : Ratio). r.errors) ratio,
        ap (λ (r : Ratio). r.length) ratio,
      ),
    )

-- Over any requests that are handled one after the other, with a window of one code or more, the
-- reports of one key are more than five seconds apart.
observe_all-IsSpaced :
    (cfg : Config) (hist : History) (key : Text)
    → 0 < cfg.window_size
    → (log : BreachLog) × (observe_all cfg hist empty ≡ some log)
      × IsSpaced (times_of key log.reports)
observe_all-IsSpaced cfg hist key some_ =
    let (log, ran, kept) =
      observe_all-Keeps cfg hist empty (λ _. []) some_ (λ j. empty-Keeps cfg j some_) in
    (log, ran, (kept key).spaced)

no_room_none :
    (cfg : Config) (key : Text) (now code : ℕ)
    → cfg.window_size ≡ 0
    → observe cfg now key code empty ≡ none
unfolding observe judge record_code lookup
no_room_none cfg key now code size = rw size refl

-- The handler panics just if the window has no room at all and a request has come.
observe_all-none :
    (cfg : Config) (hist : History)
    → (observe_all cfg hist empty ≡ none) ↔ ((cfg.window_size ≡ 0) × (hist ≢ []))
unfolding observe_all
observe_all-none cfg [] = (λ e. cc, λ (_, some_). absurd (some_ refl))
observe_all-none cfg ((key, now, code) ∷ hist) = (
  λ e. elim (Bool-cases (ltb 0 cfg.window_size)) [
    | inl room ↦
        let (log, ran, _) =
          observe_all-Keeps cfg ((key, now, code) ∷ hist) empty (λ _. []) (ground arith)
            (λ j. empty-Keeps cfg j (ground arith)) in
        cc
    | inr no_room ↦ (ground arith, λ nil_. cc)
  ],
  λ (size, _). rw (observe_all, no_room_none cfg key now code size) refl,
)
