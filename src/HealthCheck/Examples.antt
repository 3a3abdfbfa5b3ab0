-- ===== src/HealthCheck/Examples.antt =====
-- A probe of two targets.
use cascade_proxy.Common.{
  ℕ, ◌+◌, arith, ◌≡◌, ◌↔◌, ◌⊎◌, ◌==◌, refl, Bool, true, false, none, List, [], ◌∷◌, Text, ascii,
  text_eq, lookup, insert, Distinct, if◌then◌else◌,
}
use cascade_proxy.Http.{Request, Response, response}
use cascade_proxy.HealthCheck.{Status, Checker, new, Outcome, answered, handle, statuses_of}
use mathlib.Core.List.Perm
use cascade_proxy.HealthCheck.View.{view, healthy, handle-view}
use cascade_proxy.HealthCheck.Probe.{handle-EachHealthy, IsKnown, EachHealthy, Covers, last_of}

abbrev two : Checker
two = new ((1 ∷ []) ∷ (2 ∷ []) ∷ [])

-- The second target is done first, and fails.
abbrev go_two : List Text → ℕ → List (Text × Outcome) × ℕ
go_two targets w = ((2 ∷ [], answered 503 7) ∷ (1 ∷ [], answered 200 5) ∷ [], w + 7)

abbrev say : Bool → List Status → Text
say true statuses = 1 ∷ []
say false statuses = 0 ∷ []

abbrev request : Request
request = record {
  method = ascii "GET";
  scheme = [];
  url_host = [];
  path = ascii "/__health";
  raw_query = [];
  host = ascii "front";
  header = [];
  remote_addr = [];
  request_uri = ascii "/__health";
  body = none;
}

go_two-Covers : Covers two.targets (go_two two.targets 3).0
unfolding last_of
go_two-Covers j = ground arith

abbrev told : Checker × ℕ
told = (handle (λ t. t ∷ []) go_two say request [] (two, 3)).1

abbrev got : Response
got = response [] (handle (λ t. t ∷ []) go_two say request [] (two, 3)).0

handle-EachHealthy_example :
    IsKnown told.0
    × ((got.status ≡ 200) ↔ EachHealthy two.targets (go_two two.targets 3).0)
    × ((got.status ≡ 200) ⊎ (got.status ≡ 503))
    × (got.body ≡ say (got.status == 200) (statuses_of told.0))
unfolding lookup
handle-EachHealthy_example =
    handle-EachHealthy (λ t. t ∷ []) go_two say request [] two 3 (tt, λ j out. refl) go_two-Covers

-- The run answers 503.
got_status : got.status ≡ 503
unfolding handle response insert text_eq
got_status = refl

-- The targets are done the other way round.
abbrev go_back : List Text → ℕ → List (Text × Outcome) × ℕ
go_back targets w = ((1 ∷ [], answered 200 5) ∷ (2 ∷ [], answered 503 7) ∷ [], w + 7)

go_two-Distinct : Distinct (go_two two.targets 3).0
unfolding lookup text_eq
go_two-Distinct = (refl, (refl, tt))

handle-view_example :
    let (ops, (c1, _)) = handle (λ t. t ∷ []) go_two say request [] (two, 3) in
    let (ops2, (c2, _)) = handle (λ t. t ∷ []) go_back say request [] (two, 3) in
    (d1 : Distinct c1.statuses) × (d2 : Distinct c2.statuses) × (view c1 d1 ≡ view c2 d2)
    × ((response [] ops).status ≡ (if healthy (view c1 d1) then 200 else 503))
    × ((response [] ops2).status ≡ (if healthy (view c1 d1) then 200 else 503))
handle-view_example =
    handle-view (λ t. t ∷ []) say go_two go_back request [] two 3 3 tt go_two-Distinct
      (Perm.swap (1 ∷ [], answered 200 5) (2 ∷ [], answered 503 7) [])
