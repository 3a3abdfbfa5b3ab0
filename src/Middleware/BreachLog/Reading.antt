-- ===== src/Middleware/BreachLog/Reading.antt =====
-- What is read of the window: the errors among the last codes.
use cascade_proxy.Common.{
  ℕ, zero, suc, ◌+◌, ◌-◌, ◌<◌, min, ◌≡◌, sym, ap, ◌∙◌, Option, List, [], ◌++◌, arith, length, drop,
  replicate, length-append, append-nil,
}
use cascade_proxy.Middleware.BreachLog.{BreachWindow, count_errors, read_window}
use cascade_proxy.Middleware.BreachLog.Window.{
  errors_in, errors_in-append, errors_in-replicate, count_errors-append, Remembers,
}

-- The last `size` of the codes, or all of them where there are fewer.
abbrev pub last : ℕ → List ℕ → List ℕ
last size codes = drop (length codes - size) codes

errors_in-drop :
    (n k : ℕ) (xs : List ℕ) → errors_in (drop n (replicate k 0 ++ xs)) ≡ errors_in (drop (n - k) xs)
errors_in-drop zero k xs =
    errors_in-append (replicate k 0) xs
    ∙ omega (arith, errors_in-replicate k, ap (λ m. errors_in (drop m xs)) (minus k))
  where
    minus : (k : ℕ) → zero - k ≡ 0
    minus k = omega arith
errors_in-drop (suc n) zero xs = ap (λ m. errors_in (drop m xs)) {x = suc n} (omega arith)
errors_in-drop (suc n) (suc k) xs =
    errors_in-drop n k xs ∙ ap (λ m. errors_in (drop m xs)) (omega arith)

pub in_range :
    {size : ℕ} {past : List ℕ} {w : BreachWindow} → Remembers size past w → w.pos < length w.codes
in_range {w} m =
    omega (arith, ap length m.held.array, length-append m.newer m.older, m.held.here, m.open_end)

errors_held :
    {size : ℕ} {past : List ℕ} {w : BreachWindow} (m : Remembers size past w)
    → errors_in m.newer + errors_in m.older ≡ errors_in (last size past)
errors_held {size} {past} m = omega (
  arith,
  errors_in-append m.older m.newer,
  ap errors_in m.queue,
  errors_in-drop (length past) size past,
)

whole_counted :
    {size : ℕ} {past : List ℕ} {w : BreachWindow} (m : Remembers size past w)
    → count_errors size w.codes ≡ errors_in m.newer + errors_in m.older
whole_counted {size} {w} m =
    let whole = m.newer ++ m.older in
    let sized : size ≡ length whole = omega (arith, length-append m.newer m.older, m.held.sized) in
    ap (count_errors size) (m.held.array ∙ sym (append-nil whole))
    ∙ ap (λ n. count_errors n (whole ++ [])) sized
    ∙ count_errors-append whole []
    ∙ errors_in-append m.newer m.older

front_counted :
    {size : ℕ} {past : List ℕ} {w : BreachWindow} (m : Remembers size past w)
    → count_errors w.pos w.codes ≡ errors_in m.newer
front_counted {w} m =
    ap (count_errors w.pos) m.held.array
    ∙ ap (λ n. count_errors n (m.newer ++ m.older)) (sym m.held.here)
    ∙ count_errors-append m.newer m.older

-- What is read of a window after some codes: the errors among the last ones, and how many these
-- are.
pub read_window-Remembers :
    (now size : ℕ) (past : List ℕ) (w : BreachWindow)
    → 0 < size
    → 0 < length past
    → Remembers size past w
    → (read_window now size w).0
      ≡ record { errors = errors_in (last size past); length = min (length past) size }
unfolding read_window
read_window-Remembers now size past w some_ any_ m = ground (
  arith,
  errors_held m,
  whole_counted m,
  front_counted m,
  m.held.filled,
  m.held.few,
  m.held.blank,
)

-- The window does not depend on the time of the last report.
pub Remembers-logged :
    (size : ℕ) (past : List ℕ) (w : BreachWindow) (o : Option ℕ)
    → Remembers size past w
    → Remembers size past (record w { logged = o })
Remembers-logged size past w o m = record {
  newer = m.newer;
  older = m.older;
  queue = m.queue;
  open_end = m.open_end;
  held = record {
    array = m.held.array;
    here = m.held.here;
    sized = m.held.sized;
    filled = m.held.filled;
    few = m.held.few;
    blank = m.held.blank;
  };
}
