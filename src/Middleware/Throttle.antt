-- ===== src/Middleware/Throttle.antt =====
-- internal/middleware/throttle.go. A handler first waits in its `select`, which either sends to the
-- channel `sem`, when it has room, or takes the other case, when the request's time is up. Once it
-- has sent, it calls `next`, and when that is done the deferred receive takes an element from the
-- channel. The channel is its number of elements, as the elements are all alike: Go lets a sender
-- go on while there are fewer than its capacity, and a receiver while there is one. The fields `mu`
-- and `active` are never used.
use cascade_proxy.Common.{
  ℕ, ◌+◌, ◌-◌, ◌≤◌, ◌<◌, ◌≡◌, refl, ap, List, [], ◌∷◌, ◌++◌, arith, ascii, length, length-append,
  All,
}
use cascade_proxy.Http.{WriteOp, http_error}

pub record Config : Type 0 where
  pub max_concurrent : ℕ
  pub queue_timeout : ℕ

abbrev pub default_config : Config
default_config = record { max_concurrent = 10; queue_timeout = 5_000_000_000 }

-- One that was answered 503: when it came and when it was answered.
pub record Rejected : Type 0 where
  pub id : ℕ
  pub came : ℕ
  pub answered : ℕ

-- The channel, and the requests by their identities: those that wait, each with the time at which
-- it came, those that have sent to the channel, those that `next` serves, those that it is done
-- with, and those that were rejected.
pub record Throttle : Type 0 where
  pub cfg : Config
  pub now : ℕ
  pub sem : ℕ
  pub waiting : List (ℕ × ℕ)
  pub entered : List ℕ
  pub serving : List ℕ
  pub leaving : List ℕ
  pub rejected : List Rejected

unfoldable pub new : Config → Throttle
new cfg = record {
  cfg = cfg;
  now = 0;
  sem = 0;
  waiting = [];
  entered = [];
  serving = [];
  leaving = [];
  rejected = [];
}

abbrev pub rejection : List WriteOp
rejection = http_error (ascii "503 Service Unavailable: too many concurrent requests") 503

-- What can happen next.
pub data Step (t : Throttle) : Throttle → Type 0 where
  -- a request comes in, and `time.After` starts
  arrive : (id : ℕ) → Step t (record t { waiting = (id, t.now) ∷ t.waiting })
  -- case t.sem <- struct{}{}
  send :
      (id came : ℕ) (before after : List (ℕ × ℕ))
      → t.waiting ≡ before ++ ((id, came) ∷ after)
      → t.sem < t.cfg.max_concurrent
      → Step t (record t { sem = t.sem + 1; waiting = before ++ after; entered = id ∷ t.entered })
  -- next.ServeHTTP begins
  serve :
      (id : ℕ) (before after : List ℕ)
      → t.entered ≡ before ++ (id ∷ after)
      → Step t (record t { entered = before ++ after; serving = id ∷ t.serving })
  -- and is done
  done :
      (id : ℕ) (before after : List ℕ)
      → t.serving ≡ before ++ (id ∷ after)
      → Step t (record t { serving = before ++ after; leaving = id ∷ t.leaving })
  -- the deferred <-t.sem
  receive :
      (id : ℕ) (before after : List ℕ)
      → t.leaving ≡ before ++ (id ∷ after)
      → 0 < t.sem
      → Step t (record t { sem = t.sem - 1; leaving = before ++ after })
  -- case <-time.After(cfg.QueueTimeout)
  reject :
      (id came : ℕ) (before after : List (ℕ × ℕ))
      → t.waiting ≡ before ++ ((id, came) ∷ after)
      → came + t.cfg.queue_timeout ≤ t.now
      → Step t (record t {
        waiting = before ++ after;
        rejected = record { id = id; came = came; answered = t.now } ∷ t.rejected;
      })
  tick : (d : ℕ) → Step t (record t { now = t.now + d })

pub data Reachable (cfg : Config) : Throttle → Type 0 where
  start : Reachable cfg (new cfg)
  then_ : {s t : Throttle} → Reachable cfg s → Step s t → Reachable cfg t

-- What holds in every state that can be reached: each request between its send and its receive has
-- one element in the channel.
pub record IsValid (cfg : Config) (t : Throttle) : Type 0 where
  pub same : t.cfg ≡ cfg
  pub bounded : t.sem ≤ cfg.max_concurrent
  pub held : length t.entered + length t.serving + length t.leaving ≡ t.sem
  pub patient : All (λ (x : Rejected). x.came + cfg.queue_timeout ≤ x.answered) t.rejected

one_less :
    {A : Type 0} (ys xs : List A) (x : A) (zs : List A)
    → ys ≡ xs ++ (x ∷ zs)
    → length ys ≡ length (xs ++ zs) + 1
one_less ys xs x zs e = omega (arith, ap length e, length-append xs zs, length-append xs (x ∷ zs))

room_for : {c d : Config} → c ≡ d → c.max_concurrent ≡ d.max_concurrent
room_for e = ap (λ (c : Config). c.max_concurrent) e

step-IsValid : {cfg : Config} {s t : Throttle} → IsValid cfg s → Step s t → IsValid cfg t
step-IsValid v (arrive id) = record {
  same = v.same;
  bounded = v.bounded;
  held = v.held;
  patient = v.patient;
}
step-IsValid v (send id came before after there room) = record {
  same = v.same;
  bounded = omega (arith, room_for v.same, room);
  held = omega (arith, v.held);
  patient = v.patient;
}
step-IsValid {s} v (serve id before after there) = record {
  same = v.same;
  bounded = v.bounded;
  held = omega (arith, v.held, one_less s.entered before id after there);
  patient = v.patient;
}
step-IsValid {s} v (done id before after there) = record {
  same = v.same;
  bounded = v.bounded;
  held = omega (arith, v.held, one_less s.serving before id after there);
  patient = v.patient;
}
step-IsValid {s} v (receive id before after there some_) = record {
  same = v.same;
  bounded = omega (arith, v.bounded);
  held = omega (arith, v.held, one_less s.leaving before id after there);
  patient = v.patient;
}
step-IsValid v (reject id came before after there late) = record {
  same = v.same;
  bounded = v.bounded;
  held = v.held;
  patient = (omega (arith, late, ap (λ (c : Config). c.queue_timeout) v.same), v.patient);
}
step-IsValid v (tick d) = record {
  same = v.same;
  bounded = v.bounded;
  held = v.held;
  patient = v.patient;
}

-- In every state that the throttle can reach, the channel has just one element for each request
-- that has sent and not yet received, so that at most as many requests are with the next handler
-- at once as the configuration allows, and no deferred receive finds the channel empty; and each
-- request that was rejected had waited for the whole timeout of the queue.
pub reachable-few :
    (cfg : Config) (t : Throttle)
    → Reachable cfg t
    → (length t.entered + length t.serving + length t.leaving ≡ t.sem)
      × (length t.serving ≤ cfg.max_concurrent)
      × (length t.leaving ≤ t.sem)
      × All (λ (x : Rejected). x.came + cfg.queue_timeout ≤ x.answered) t.rejected
reachable-few cfg t path =
    let v = valid path in
    (v.held, omega (arith, v.held, v.bounded), omega (arith, v.held), v.patient)
  where
    valid : {t : Throttle} → Reachable cfg t → IsValid cfg t
    valid start =
        unfold new in record { same = refl; bounded = omega arith; held = refl; patient = tt }
    valid (then_ path' step) = step-IsValid (valid path') step
