-- ===== src/Middleware/Retry/Attempts.antt =====
-- Which attempt decides.
use cascade_proxy.Common.{
  ℕ, zero, suc, ◌<◌, ◌≤◌, ◌≡◌, ◌⊎◌, refl, sym, ap, ◌∙◌, Bool, true, false, Option, none, some, List,
  ◌++◌, arith, append_assoc, Bool-cases, inl, inr,
}
use cascade_proxy.Http.{Header, Handler, Request, WriteOp, Clock, header_after}
use cascade_proxy.Middleware.Recording.{Recording}
use cascade_proxy.Middleware.Retry.{Config, is_retryable, attempt, attempts, handle}

module _ {W : Type 0} (clock : Clock W) (rec : Recording) (cfg : Config) (next : Handler W)
    (r : Request) where
  -- Attempt `k`, from 0 on, with what it finds: the calls that it makes, and those that reach the
  -- wrapped writer up to its end. Between two attempts the delay passes.
  abbrev pub found_at : ℕ → Header → W → Header × W
  found_at zero h w = (h, w)
  found_at (suc k) h w =
      let (ops, w') = next r h w in
      found_at k (header_after h (rec.passed ops)) (clock.sleep cfg.delay w')

  abbrev pub run_at : ℕ → Header → W → List WriteOp × W
  run_at k h w = let (h', w') = found_at k h w in next r h' w'

  abbrev pub passed_to : ℕ → Header → W → List WriteOp
  passed_to zero h w = rec.passed (next r h w).0
  passed_to (suc k) h w =
      let (ops, w') = next r h w in
      rec.passed ops ++ passed_to k (header_after h (rec.passed ops)) (clock.sleep cfg.delay w')

  abbrev pub fails : ℕ → Header → W → Bool
  fails k h w = is_retryable cfg (rec.status (run_at k h w).0)

  -- Attempt `k` ends the handler, if `n` are left behind the first.
  pub record Ends (n k : ℕ) (h : Header) (w : W) (got : List WriteOp × W) : Type 0 where
    pub within : k ≤ n
    pub before : (j : ℕ) → j < k → fails j h w ≡ true
    pub enough : (fails k h w ≡ false) ⊎ (k ≡ n)
    pub told : got.0 ≡ passed_to k h w ++ rec.flush (run_at k h w).0
    pub world : got.1 ≡ (run_at k h w).1

  fails_before :
      (j k : ℕ) (h : Header) (w : W)
      → fails 0 h w ≡ true
      → ((i : ℕ) → i < k → fails i (found_at 1 h w).0 (found_at 1 h w).1 ≡ true)
      → j < suc k
      → fails j h w ≡ true
  fails_before zero k h w first later lt = first
  fails_before (suc j) k h w first later lt = later j (omega arith)

  attempt-Ends :
      (n : ℕ) (h : Header) (w : W) → (k : ℕ) × Ends n k h w (attempt clock rec cfg next n r h w)
  unfolding attempt
  attempt-Ends zero h w = (
    0,
    record {
      within = omega arith;
      before = λ j lt. absurd (ground arith);
      enough = inr refl;
      told = refl;
      world = refl;
    },
  )
  attempt-Ends (suc n) h w = elim (Bool-cases (is_retryable cfg (rec.status (next r h w).0))) [
    | inr good ↦ (
      0,
      rw good (record {
        within = omega arith;
        before = λ j lt. absurd (ground arith);
        enough = inl good;
        told = refl;
        world = refl;
      }),
    )
    | inl bad ↦
        let (ops, w') = next r h w in
        let (k, ends) =
          attempt-Ends n (header_after h (rec.passed ops)) (clock.sleep cfg.delay w') in
        (
          suc k,
          rw bad (record {
            within = omega (arith, ends.within);
            before = λ j lt. fails_before j k h w bad ends.before lt;
            enough = elim ends.enough [ inl good ↦ inl good | inr last ↦ inr (ap suc last) ];
            told =
                ap (◌++◌ (rec.passed ops)) ends.told
                ∙ sym (
                    append_assoc (rec.passed ops)
                      (passed_to k (found_at 1 h w).0 (found_at 1 h w).1) _);
            world = ends.world;
          }),
        )
  ]

  -- What becomes of a request when so many attempts are configured.
  abbrev pub Tries : ℕ → Header → W → Option (List WriteOp × W) → Type 0
  Tries zero h w o = o ≡ none
  Tries (suc n) h w o = (k : ℕ) × (got : List WriteOp × W) × (o ≡ some got) × Ends n k h w got

  attempts-Tries : (m : ℕ) (h : Header) (w : W) → Tries m h w (attempts clock rec cfg next m r h w)
  unfolding attempts
  attempts-Tries zero h w = refl
  attempts-Tries (suc n) h w =
      let (k, ends) = attempt-Ends n h w in (k, attempt clock rec cfg next n r h w, refl, ends)

  -- With no attempt configured the handler panics. Else it makes attempts, at most as many as that,
  -- up to the first whose status is not retryable or to the last one: the client's writer is told
  -- all that the attempts pass on and then what the last one's recorder flushes, and the world is
  -- left as that attempt leaves it.
  pub handle-Tries :
      (h : Header) (w : W) → Tries cfg.max_attempts h w (handle clock rec cfg next r h w)
  unfolding handle
  handle-Tries h w = attempts-Tries cfg.max_attempts h w
