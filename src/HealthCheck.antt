-- ===== src/HealthCheck.antt =====
-- internal/healthcheck/healthcheck.go. The goroutines of a probe write their statuses under the
-- mutex, one after another, in the order in which they are done: this order, and what each has seen
-- under the timeout of the client, is a parameter. So are the text of a duration and the JSON
-- encoder. The fields of a target are its key in the map and in the status.
pub mod Statuses
pub mod Probe
pub mod View
mod Examples
use cascade_proxy.Common.{
  ℕ, Bool, true, false, not, List, [], ◌∷◌, ◌++◌, map, ltb, if◌then◌else◌, Text, ascii, Dict,
  lookup, insert,
}
use cascade_proxy.Http.{
  Header, Handler, WriteOp, set_header, write_header, write_body, content_type,
}

pub record Status : Type 0 where
  pub target : Text
  pub healthy : Bool
  pub latency : Text

pub record Checker : Type 0 where
  pub targets : List Text
  pub statuses : Dict Status

abbrev pub new : List Text → Checker
new targets = record { targets = targets; statuses = [] }

-- How the request to a target went: it was not built, it failed, or it was answered with a status.
-- A latency is in nanoseconds.
pub data Outcome : Type 0 where
  unbuilt : Outcome
  failed : ℕ → Outcome
  answered : ℕ → ℕ → Outcome

abbrev pub is_healthy : Outcome → Bool
is_healthy unbuilt = false
is_healthy (failed latency) = false
is_healthy (answered status latency) = ltb status 500

abbrev pub latency_of : Outcome → ℕ
latency_of unbuilt = 0
latency_of (failed latency) = latency
latency_of (answered status latency) = latency

-- The values of the map, in its order.
abbrev pub statuses_of : Checker → List Status
statuses_of c = map (λ e. e.1) c.statuses

-- The loop of the handler, which breaks at the first that is not healthy.
unfoldable pub all_healthy : List Status → Bool
all_healthy [] = true
all_healthy (s ∷ rest) = if not s.healthy then false else all_healthy rest

module _ (show_duration : ℕ → Text) where
  -- one goroutine
  unfoldable pub probe_one : Text → Outcome → Checker → Checker
  probe_one target o c = record c {
    statuses =
        insert target
          (record {
            target = target;
            healthy = is_healthy o;
            latency = show_duration (latency_of o);
          })
          c.statuses;
  }

  -- `Probe`, with the targets in the order in which they are done
  unfoldable pub probe : List (Text × Outcome) → Checker → Checker
  unfolding probe_one
  probe [] c = c
  probe ((target, o) ∷ done) c = probe done (probe_one target o c)

  module _ {W : Type 0} (go_all : List Text → W → List (Text × Outcome) × W)
      (encode : Bool → List Status → Text) where
    -- `Handler`
    unfoldable pub handle : Handler (Checker × W)
    unfolding probe all_healthy
    handle r h (c, w) =
        let (done, w') = go_all c.targets w in
        let c' = probe done c in
        let healthy = all_healthy (statuses_of c') in
        (
          (set_header content_type (ascii "application/json") ∷ [])
              ++ ((if not healthy then write_header 503 ∷ [] else [])
                  ++ (write_body (encode healthy (statuses_of c')) ∷ [])),
          (c', w'),
        )
