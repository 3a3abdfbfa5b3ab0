-- ===== src/Proxy/Serve/Rule.antt =====
-- A rule for the loop of `ServeHTTP`: what each step keeps, the loop keeps.
use cascade_proxy.Common.{
  ℕ, zero, suc, ◌+◌, ◌≡◌, refl, sym, subst, Option, none, some, List, arith, Text, Result,
}
use cascade_proxy.Http.{Request, WriteOp, Clock}
use cascade_proxy.CircuitBreaker.{execute}
use cascade_proxy.CircuitBreaker.Calls.{execute_rule}
use cascade_proxy.Proxy.Request.{Url, OutRequest, Upstream}
use cascade_proxy.Proxy.Serve.{
  Proxy, Error, circuit_open, build, failed, upstream_status, Exchange, forward, try_once,
  serve_from,
}

module _ {W E : Type 0} (clock : Clock W) (refused : Text → Url → Option E)
    (exchange : OutRequest → W → Result E Upstream × W) (describe : ℕ → Option (Error E) → Text)
    (r : Request) (target : Url) where
  -- `P n x` holds of the exchange after at most `n` tries.
  pub record IsKept (P : ℕ → Exchange W → Type 0) : Type 0 where
    pub later : (n : ℕ) (x : Exchange W) → P n x → P (suc n) x
    pub written :
        (n : ℕ) (x : Exchange W) (ops : List WriteOp) → P n x → P n (record x { ops = ops })
    pub waited :
        (n : ℕ) (x : Exchange W) (d : ℕ) → P n x → P n (record x { world = clock.sleep d x.world })
    pub tried :
        (n : ℕ) (x : Exchange W)
        → P n x
        → P (suc n) (forward clock refused exchange describe r target x).1

  module _ (P : ℕ → Exchange W → Type 0) (keep : IsKept P) where
    attempt_kept :
        (n : ℕ) (p : Proxy) (x : Exchange W)
        → p.target ≡ target
        → P n x
        → P
            (suc n)
            (execute
              (λ y. clock.now y.world)
              circuit_open
              (forward clock refused exchange describe r p.target)
              p.cb
              x).2
    attempt_kept n p x same h =
        execute_rule (λ y. clock.now y.world) circuit_open
          (forward clock refused exchange describe r p.target) (λ _ y. P (suc n) y) p.cb x
          (keep.later n x h)
          (subst (λ t. P (suc n) (forward clock refused exchange describe r t x).1) (sym same)
            (keep.tried n x h))

    try_once_kept :
        (n : ℕ) (p : Proxy) (attempt : ℕ) (x : Exchange W)
        → p.target ≡ target
        → P n x
        → P (suc n) (try_once clock refused exchange describe r p attempt x).2
    unfolding try_once
    try_once_kept n p zero x same h = attempt_kept n p x same h
    try_once_kept n p (suc _) x same h =
        attempt_kept n p (record x { world = clock.sleep p.cfg.retry_delay x.world }) same
          (keep.waited n x p.cfg.retry_delay h)

    all_later : (n k m : ℕ) (x : Exchange W) → n + k ≡ m → P n x → P m x
    all_later n zero m x e h = let e' : n ≡ m = omega arith in rw (← e') h
    all_later n (suc k) m x e h = all_later (suc n) k m x (omega arith) (keep.later n x h)

    kept_step :
        (m rounds attempt : ℕ) (last : Option (Error E)) (p : Proxy) (x : Exchange W)
        (result : Option (Error E))
        → let tried = try_once clock refused exchange describe r p attempt x in
          tried.0 ≡ result
          → P m tried.2
          → ((last' : Option (Error E))
              → P m
                  (serve_from clock refused exchange describe rounds
                    (attempt + 1)
                    last'
                    r
                    (record p { cb = tried.1 })
                    tried.2).1)
          → P m (serve_from clock refused exchange describe (suc rounds) attempt last r p x).1
    unfolding serve_from
    kept_step m rounds attempt last p x none e h again = rw (e, serve_from) h
    kept_step m rounds attempt last p x (some circuit_open) e h again =
        rw (e, serve_from) (keep.written m _ _ h)
    kept_step m rounds attempt last p x (some (build b)) e h again =
        rw (e, serve_from) (again (some (build b)))
    kept_step m rounds attempt last p x (some (failed b)) e h again =
        rw (e, serve_from) (again (some (failed b)))
    kept_step m rounds attempt last p x (some (upstream_status s)) e h again =
        rw (e, serve_from) (again (some (upstream_status s)))

    pub serve_from-kept :
        (n rounds m attempt : ℕ) (last : Option (Error E)) (p : Proxy) (x : Exchange W)
        → n + rounds ≡ m
        → p.target ≡ target
        → P n x
        → P m (serve_from clock refused exchange describe rounds attempt last r p x).1
    unfolding serve_from
    serve_from-kept n zero m attempt last p x e same h = keep.written m x _ (all_later n 0 m x e h)
    serve_from-kept n (suc rounds) m attempt last p x e same h =
        let tried = try_once clock refused exchange describe r p attempt x in
        let h' = try_once_kept n p attempt x same h in
        kept_step m rounds attempt last p x tried.0 refl
          (all_later (suc n) rounds m tried.2 (omega arith) h')
          λ last'.
            serve_from-kept (suc n) rounds m (attempt + 1) last' (record p { cb = tried.1 }) tried.2
              (omega arith) same h'
