-- ===== src/Middleware/BreachLog/Window.antt =====
-- The window holds the last codes.
use native.Mathlib.Nat.{mod-eq_of_lt, mod_self}
use cascade_proxy.Common.{
  ℕ, zero, suc, ◌+◌, ◌%◌, ◌<◌, ◌≡◌, refl, sym, ap, ◌∙◌, List, [], ◌∷◌, ◌++◌, arith, leb,
  if◌then◌else◌, length, set, drop, replicate, length-append, set-middle, length-replicate,
  append_assoc, append-nil, subst,
}
use cascade_proxy.Middleware.BreachLog.{BreachWindow, fresh, count_errors, write_code}

-- How many of the codes are errors.
abbrev pub errors_in : List ℕ → ℕ
errors_in [] = 0
errors_in (code ∷ codes) = (if leb 500 code then 1 else 0) + errors_in codes

pub errors_in-append : (xs ys : List ℕ) → errors_in (xs ++ ys) ≡ errors_in xs + errors_in ys
errors_in-append [] ys = omega arith
errors_in-append (x ∷ xs) ys = omega (arith, errors_in-append xs ys)

pub errors_in-replicate : (n : ℕ) → errors_in (replicate n 0) ≡ 0
errors_in-replicate zero = refl
errors_in-replicate (suc n) = omega (arith, errors_in-replicate n)

pub count_errors-append : (xs ys : List ℕ) → count_errors (length xs) (xs ++ ys) ≡ errors_in xs
unfolding count_errors
count_errors-append [] ys = refl
count_errors-append (x ∷ xs) ys = ground (arith, count_errors-append xs ys)

-- After `n` codes: the array has the newer of the last codes in front of the position and the older
-- ones behind it, or zeros that were never written.
pub record Holds (size n : ℕ) (newer older : List ℕ) (w : BreachWindow) : Type 0 where
  pub array : w.codes ≡ newer ++ older
  pub here : length newer ≡ w.pos
  pub sized : length newer + length older ≡ size
  pub filled : w.full ≡ leb size n
  pub few : n < size → w.pos ≡ n
  pub blank : n < size → errors_in older ≡ 0

abbrev shift : List ℕ → ℕ → List ℕ
shift [] code = code ∷ []
shift (x ∷ xs) code = xs ++ (code ∷ [])

written :
    (newer : List ℕ) (old : ℕ) (rest : List ℕ) (w : BreachWindow) (code : ℕ)
    → w.codes ≡ newer ++ (old ∷ rest)
    → length newer ≡ w.pos
    → set w.codes w.pos code ≡ newer ++ (code ∷ rest)
written newer old rest w code array here =
    ap (λ (c : List ℕ). set c w.pos code) array
    ∙ ap (λ (p : ℕ). set (newer ++ (old ∷ rest)) p code) (sym here)
    ∙ set-middle newer old rest code

write-last :
    {size n : ℕ} {newer : List ℕ} {old : ℕ} {w : BreachWindow} (code : ℕ)
    → Holds size n newer (old ∷ []) w
    → Holds size (suc n) [] (newer ++ (code ∷ [])) (write_code code size w)
unfolding write_code
write-last {size} {n} {newer} {old} {w} code h =
    let end : w.pos + 1 ≡ size = omega (arith, h.here, h.sized) in
    let back : (w.pos + 1) % size ≡ 0 = rw end (mod_self size) in
    record {
      array = written newer old [] w code h.array h.here;
      here = sym back;
      sized = omega (arith, length-append newer (code ∷ []), h.sized);
      filled = ground (arith, back, end, h.filled, h.few);
      few = λ lt. absurd (omega (arith, end, h.few (omega arith)));
      blank = λ lt. absurd (omega (arith, end, h.few (omega arith)));
    }

write-inner :
    {size n : ℕ} {newer : List ℕ} {old next : ℕ} {rest : List ℕ} {w : BreachWindow} (code : ℕ)
    → Holds size n newer (old ∷ next ∷ rest) w
    → Holds size (suc n) (newer ++ (code ∷ [])) (next ∷ rest) (write_code code size w)
unfolding write_code
write-inner {size} {n} {newer} {old} {next} {rest} {w} code h =
    let on : (w.pos + 1) % size ≡ w.pos + 1 = mod-eq_of_lt (omega (arith, h.here, h.sized)) in
    record {
      array =
          written newer old (next ∷ rest) w code h.array h.here
          ∙ sym (append_assoc newer (code ∷ []) (next ∷ rest));
      here = omega (arith, length-append newer (code ∷ []), h.here, on);
      sized = omega (arith, length-append newer (code ∷ []), h.sized);
      filled = ground (arith, on, h.here, h.sized, h.filled, h.few);
      few = λ lt. omega (arith, on, h.few (omega arith));
      blank = λ lt. omega (arith, h.blank (omega arith));
    }

-- The array as it stands after the codes `past`, the last one recorded at the end.
pub record Remembers (size : ℕ) (past : List ℕ) (w : BreachWindow) : Type 0 where
  pub newer : List ℕ
  pub older : List ℕ
  pub queue : older ++ newer ≡ drop (length past) (replicate size 0 ++ past)
  pub open_end : 0 < length older
  pub held : Holds size (length past) newer older w

shift-drop :
    (n : ℕ) (xs : List ℕ) (code : ℕ)
    → n < length xs
    → shift (drop n xs) code ≡ drop (suc n) (xs ++ (code ∷ []))
shift-drop n [] code h = elim h [ ]
shift-drop zero (x ∷ xs) code h = refl
shift-drop (suc n) (x ∷ xs) code h = shift-drop n xs code (omega arith)

shift-past :
    (size : ℕ) (past : List ℕ) (code : ℕ)
    → 0 < size
    → shift (drop (length past) (replicate size 0 ++ past)) code
      ≡ drop (length (past ++ (code ∷ []))) (replicate size 0 ++ (past ++ (code ∷ [])))
shift-past size past code some_ =
    let zeros : List ℕ = replicate size 0 in
    let longer : length (past ++ (code ∷ [])) ≡ suc (length past) =
      length-append past (code ∷ []) ∙ omega arith in
    let within : length past < length (zeros ++ past) =
      omega (arith, length-append zeros past, length-replicate {A = ℕ} size 0) in
    shift-drop (length past) (zeros ++ past) code within
    ∙ ap (drop (suc (length past))) (append_assoc zeros past (code ∷ []))
    ∙ ap (λ n. drop n (zeros ++ (past ++ (code ∷ [])))) (sym longer)

write_from :
    (size n : ℕ) (newer older : List ℕ) (w : BreachWindow) (code : ℕ)
    → 0 < length older
    → Holds size n newer older w
    → (newer' older' : List ℕ) × (older' ++ newer' ≡ shift (older ++ newer) code)
      × (0 < length older')
      × Holds size (suc n) newer' older' (write_code code size w)
write_from size n newer [] w code some_ h = elim some_ [ ]
write_from size n newer (old ∷ []) w code some_ h = (
  [],
  newer ++ (code ∷ []),
  append-nil (newer ++ (code ∷ [])),
  omega (arith, length-append newer (code ∷ [])),
  write-last code h,
)
write_from size n newer (old ∷ next ∷ rest) w code some_ h = (
  newer ++ (code ∷ []),
  next ∷ rest,
  sym (append_assoc (next ∷ rest) newer (code ∷ [])),
  omega arith,
  write-inner code h,
)

pub write_code-Remembers :
    (size : ℕ) (past : List ℕ) (w : BreachWindow) (code : ℕ)
    → 0 < size
    → Remembers size past w
    → Remembers size (past ++ (code ∷ [])) (write_code code size w)
write_code-Remembers size past w code some_ m =
    let (newer, older, moved, open_, held) =
      write_from size (length past) m.newer m.older w code m.open_end m.held in
    record {
      newer = newer;
      older = older;
      queue = moved ∙ ap (λ q. shift q code) m.queue ∙ shift-past size past code some_;
      open_end = open_;
      held =
          subst (λ n. Holds size n newer older (write_code code size w))
            (omega (arith, length-append past (code ∷ []))) held;
    }

pub fresh-Remembers : (size : ℕ) → 0 < size → Remembers size [] (fresh size)
fresh-Remembers size some_ = record {
  newer = [];
  older = replicate size 0;
  queue = refl;
  open_end = omega (arith, length-replicate {A = ℕ} size 0);
  held = record {
    array = refl;
    here = refl;
    sized = omega (arith, length-replicate {A = ℕ} size 0);
    filled = ground arith;
    few = λ _. refl;
    blank = λ _. errors_in-replicate size;
  };
}
