-- ===== src/Middleware/PathRateLimit/Runs.antt =====
-- The limiters over requests for many paths.
use cascade_proxy.Common.{
  ℕ, zero, suc, ◌+◌, ◌≡◌, refl, ap, ◌∙◌, Bool, true, List, [], ◌∷◌, Option, none, some, ◌==◌,
  ==_iff, arith, if◌then◌else◌, Text, text_eq, Bool-cases, inl, inr,
}
use cascade_proxy.RateLimiter.{RateLimiter, allow}
use cascade_proxy.RateLimiter.Bounds.{granted}
use cascade_proxy.RateLimiter.Keys.{grants}
use cascade_proxy.Middleware.PathRateLimit.{
  Entry, Limiters, governs, allow_fallback, ask, allow_path,
}

-- Which entry a path is for: the first whose prefix it has. The fallback counts as the last.
unfoldable pub entry_for : Text → List Entry → ℕ
entry_for path [] = 0
entry_for path (e ∷ es) =
    let rest = entry_for path es in if governs path e.prefix then 0 else suc rest

unfoldable pub limiter_at : ℕ → List Entry → Option RateLimiter → Option RateLimiter
limiter_at zero [] fallback = fallback
limiter_at (suc i) [] fallback = none
limiter_at zero (e ∷ es) fallback = some e.limiter
limiter_at (suc i) (e ∷ es) fallback = limiter_at i es fallback

abbrev pub limiter_of : ℕ → Limiters → Option RateLimiter
limiter_of i s = limiter_at i s.entries s.fallback

abbrev answer_of : ℕ → Text → Option RateLimiter → Bool
answer_of now key none = true
answer_of now key (some l) = (allow now now key l).0

abbrev after : ℕ → Text → Option RateLimiter → Option RateLimiter
after now key none = none
after now key (some l) = some (allow now now key l).1

suc_same : (a b : ℕ) → (suc a == suc b) ≡ (a == b)
suc_same a b = ground arith

module _ (now : ℕ) (path key : Text) where
  ask-answer :
      (es : List Entry) (fb : Option RateLimiter)
      → (ask now path key es fb).0 ≡ answer_of now key (limiter_at (entry_for path es) es fb)
  unfolding ask entry_for limiter_at allow_fallback
  ask-answer [] none = refl
  ask-answer [] (some l) = refl
  ask-answer (e ∷ es) fb = elim (Bool-cases (governs path e.prefix)) [
    | inl here ↦ rw here refl
    | inr other ↦ rw other (ask-answer es fb)
  ]

  ask-limiter :
      (i : ℕ) (es : List Entry) (fb : Option RateLimiter)
      → limiter_of i (ask now path key es fb).1 ≡ (
          if entry_for path es == i then after now key (limiter_at i es fb) else limiter_at i es fb)
  unfolding ask entry_for limiter_at allow_fallback
  ask-limiter zero [] none = refl
  ask-limiter zero [] (some l) = refl
  ask-limiter (suc i) [] none = ground arith
  ask-limiter (suc i) [] (some l) = ground arith
  ask-limiter zero (e ∷ es) fb = elim (Bool-cases (governs path e.prefix)) [
    | inl here ↦ rw here refl
    | inr other ↦ rw other (ground arith)
  ]
  ask-limiter (suc i) (e ∷ es) fb = elim (Bool-cases (governs path e.prefix)) [
    | inl here ↦ rw here (ground arith)
    | inr other ↦ rw (other, suc_same (entry_for path es) i) (ask-limiter i es fb)
  ]

  ask-entry_for :
      (p : Text) (es : List Entry) (fb : Option RateLimiter)
      → entry_for p (ask now path key es fb).1.entries ≡ entry_for p es
  unfolding ask entry_for
  ask-entry_for p [] fb = refl
  ask-entry_for p (e ∷ es) fb = elim (Bool-cases (governs path e.prefix)) [
    | inl here ↦ rw here refl
    | inr other ↦ rw (other, ask-entry_for p es fb) refl
  ]

-- A history of requests: path, client and time.
abbrev pub History : Type 0
History = List (Text × Text × ℕ)

-- How many of the requests of a client that are for this entry are granted.
unfoldable pub grants_at : ℕ → Text → Limiters → History → ℕ
grants_at i key s [] = 0
grants_at i key s ((path, client, now) ∷ hist) =
    let (ok, s') = allow_path now path client s in
    (if entry_for path s.entries == i then (if text_eq client key then granted ok else 0) else 0)
    + grants_at i key s' hist

-- The requests of all clients that are for this entry.
unfoldable pub requests_at : ℕ → List Entry → History → List (Text × ℕ)
requests_at i es [] = []
requests_at i es ((path, client, now) ∷ hist) =
    let rest = requests_at i es hist in
    if entry_for path es == i then (client, now) ∷ rest else rest

requests_at_same :
    (i : ℕ) (es es2 : List Entry) (hist : History)
    → ((p : Text) → entry_for p es ≡ entry_for p es2)
    → requests_at i es hist ≡ requests_at i es2 hist
unfolding requests_at
requests_at_same i es es2 [] f = refl
requests_at_same i es es2 ((path, client, now) ∷ hist) f =
    rw (f path, requests_at_same i es es2 hist f) refl

-- Over any history of requests for all paths, an entry's limiter grants a client as many requests
-- as it grants alone, on just the requests whose paths have the entry's prefix and that of no entry
-- before: the entries, and the fallback with the paths of no entry, do not influence each other.
pub grants_at-grants :
    (i : ℕ) (key : Text) (s : Limiters) (hist : History) (l : RateLimiter)
    → limiter_of i s ≡ some l
    → grants_at i key s hist ≡ grants key l (requests_at i s.entries hist)
unfolding grants_at requests_at grants allow_path
grants_at-grants i key s [] l e = refl
grants_at-grants i key s ((path, client, now) ∷ hist) l e =
    let s' = (ask now path client s.entries s.fallback).1 in
    let same =
      requests_at_same i s'.entries s.entries hist
        (λ p. ask-entry_for now path client p s.entries s.fallback) in
    let limiter = ask-limiter now path client i s.entries s.fallback in
    elim (Bool-cases (entry_for path s.entries == i)) [
      | inl here ↦
          let ih =
            grants_at-grants i key s' hist (allow now now client l).1
              (limiter ∙ rw (here, e) refl) in
          let answer : (allow_path now path client s).0 ≡ (allow now now client l).0 =
            ask-answer now path client s.entries s.fallback
            ∙ ap (λ j. answer_of now client (limiter_of j s))
                ((==_iff (entry_for path s.entries) i).0 here)
            ∙ ap (answer_of now client) e in
          rw (here, ih, same)
            (ap
              (λ ok.
                (if text_eq client key then granted ok else 0)
                + grants key (allow now now client l).1 (requests_at i s.entries hist))
              answer)
      | inr other ↦
          let ih = grants_at-grants i key s' hist l (limiter ∙ rw (other, e) refl) in
          rw (other, ih, same) (omega arith)
    ]
