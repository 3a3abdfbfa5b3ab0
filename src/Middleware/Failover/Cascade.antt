-- ===== src/Middleware/Failover/Cascade.antt =====
-- Which backend answers, in a relation that says which backends were asked before it.
use cascade_proxy.Common.{
  ◌≡◌, refl, ◌⊎◌, inl, inr, true, false, List, [], ◌∷◌, ◌++◌, Option, none, some, ap, Text,
  Bool-cases, Option-cases,
}
use cascade_proxy.Http.{Header, Handler, WriteOp, Request}
use cascade_proxy.Middleware.Failover.{
  Config, Buffered, Base, retarget, unavailable, is_retryable, try_backends, handle,
}

module _ {W : Type 0} (rec : Buffered) (parse : Text → Option Base) (next : Handler W)
    (cfg : Config) (r : Request) where
  -- Asked in turn, these backends are no help: each does not parse, or answers with a status that
  -- is retryable. They take the world from the first to the second.
  pub data Fails : W → List Text → W → Type 0 where
    nobody : {w : W} → Fails w [] w
    invalid :
        {w w' : W} {backend : Text} {backends : List Text}
        → parse backend ≡ none
        → Fails w backends w'
        → Fails w (backend ∷ backends) w'
    refused :
        {w w' : W} {backend : Text} {backends : List Text} (base : Base)
        → parse backend ≡ some base
        → is_retryable cfg (rec.status (next (retarget base r) [] w).0) ≡ true
        → Fails (next (retarget base r) [] w).1 backends w'
        → Fails w (backend ∷ backends) w'

  -- The first backend that is a help answers, behind those that are none.
  pub record Wins (w : W) (backends : List Text) (answer : List WriteOp × W) : Type 0 where
    pub before : List Text
    pub winner : Text
    pub after : List Text
    pub reached : W
    pub base : Base
    pub listed : backends ≡ before ++ (winner ∷ after)
    pub failed : Fails w before reached
    pub parsed : parse winner ≡ some base
    pub good : is_retryable cfg (rec.status (next (retarget base r) [] reached).0) ≡ false
    pub flushed :
        answer
        ≡ (rec.flush (next (retarget base r) [] reached).0, (next (retarget base r) [] reached).1)

  -- Nobody is a help.
  abbrev pub Exhausted : W → List Text → List WriteOp × W → Type 0
  Exhausted w backends answer = (w' : W) × Fails w backends w' × (answer ≡ (unavailable, w'))

  abbrev Outcome : W → List Text → List WriteOp × W → Type 0
  Outcome w backends answer = Exhausted w backends answer ⊎ Wins w backends answer

  invalid-Outcome :
      (w : W) (backend : Text) (backends : List Text) (answer : List WriteOp × W)
      → parse backend ≡ none
      → Outcome w backends answer
      → Outcome w (backend ∷ backends) answer
  invalid-Outcome w backend backends answer bad (inl (w', f, e)) = inl (w', invalid bad f, e)
  invalid-Outcome w backend backends answer bad (inr won) = inr (record {
    before = backend ∷ won.before;
    winner = won.winner;
    after = won.after;
    reached = won.reached;
    base = won.base;
    listed = ap (◌∷◌ backend) won.listed;
    failed = invalid bad won.failed;
    parsed = won.parsed;
    good = won.good;
    flushed = won.flushed;
  })

  refused-Outcome :
      (w : W) (backend : Text) (backends : List Text) (answer : List WriteOp × W) (base : Base)
      → parse backend ≡ some base
      → is_retryable cfg (rec.status (next (retarget base r) [] w).0) ≡ true
      → Outcome (next (retarget base r) [] w).1 backends answer
      → Outcome w (backend ∷ backends) answer
  refused-Outcome w backend backends answer base p bad (inl (w', f, e)) =
      inl (w', refused base p bad f, e)
  refused-Outcome w backend backends answer base p bad (inr won) = inr (record {
    before = backend ∷ won.before;
    winner = won.winner;
    after = won.after;
    reached = won.reached;
    base = won.base;
    listed = ap (◌∷◌ backend) won.listed;
    failed = refused base p bad won.failed;
    parsed = won.parsed;
    good = won.good;
    flushed = won.flushed;
  })

  try_backends-Outcome :
      (backends : List Text) (w : W)
      → Outcome w backends (try_backends rec parse next cfg backends r w)
  unfolding try_backends
  try_backends-Outcome [] w = inl (w, nobody, refl)
  try_backends-Outcome (backend ∷ backends) w = elim (Option-cases (parse backend)) [
    | inl bad ↦
        rw (bad, try_backends)
          (invalid-Outcome w backend backends _ bad (try_backends-Outcome backends w))
    | inr (base, p) ↦
        let answer = next (retarget base r) [] w in
        elim (Bool-cases (is_retryable cfg (rec.status answer.0))) [
          | inl bad ↦
              rw (p, try_backends, bad)
                (refused-Outcome w backend backends _ base p bad
                  (try_backends-Outcome backends answer.1))
          | inr good ↦
              rw (p, try_backends, good)
                (inr (record {
                  before = [];
                  winner = backend;
                  after = backends;
                  reached = w;
                  base = base;
                  listed = refl;
                  failed = nobody;
                  parsed = p;
                  good = good;
                  flushed = refl;
                }))
        ]
  ]

  -- Of the configured backends the first one answers that parses and whose status is not retryable,
  -- after those before it have been asked in their order; the client gets what its recorder
  -- flushes, and the backends behind it are not asked. Where there is none, all have been asked and
  -- the client gets 502.
  pub handle-cascades :
      (h : Header) (w : W)
      → Exhausted w cfg.backends (handle rec parse next cfg r h w)
        ⊎ Wins w cfg.backends (handle rec parse next cfg r h w)
  unfolding handle
  handle-cascades h w = try_backends-Outcome cfg.backends w
