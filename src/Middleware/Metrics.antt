-- ===== src/Middleware/Metrics.antt =====
-- internal/middleware/metrics.go: what is counted. The counters are machine words of 64 bits.
pub mod Served
use cascade_proxy.Common.{
  ℕ, suc, ◌+◌, ◌%◌, ◌^◌, ◌≡◌, refl, ◌∙◌, Bool, List, [], ◌∷◌, arith, leb, ltb, ◌-◌, ◌==◌,
  if◌then◌else◌, length,
}

-- A map whose keys are numbers, as a function.
abbrev pub Counts : Type 0
Counts = ℕ → ℕ

pub record Metrics : Type 0 where
  pub total_requests : ℕ
  pub total_errors : ℕ
  pub total_duration : ℕ
  pub status_counts : Counts

abbrev pub u64 : ℕ → ℕ
u64 n = n % 2 ^ 64

-- `negsuc n` is - (n + 1).
pub data ℤ : Type 0 where
  pos negsuc : ℕ → ℤ

-- The bits of an `int64`, read as a number.
abbrev pub signed : ℕ → ℤ
signed n = if ltb n (2 ^ 63) then pos n else negsuc (2 ^ 64 - (n + 1))

unfoldable pub new_metrics : Metrics
new_metrics = record {
  total_requests = 0;
  total_errors = 0;
  total_duration = 0;
  status_counts = λ _. 0;
}

-- m.StatusCounts[status]++
abbrev pub count : ℕ → Counts → Counts
count status m = λ s. if status == s then u64 (m s + 1) else m s

-- `record`; a duration is not negative. The sum of the durations is an `int64`, kept as its bits.
unfoldable pub record_request : ℕ → ℕ → Metrics → Metrics
record_request status duration m = record {
  total_requests = u64 (m.total_requests + 1);
  total_errors = if leb 500 status then u64 (m.total_errors + 1) else m.total_errors;
  total_duration = u64 (m.total_duration + duration);
  status_counts = count status m.status_counts;
}

unfoldable pub record_all : List (ℕ × ℕ) → Metrics → Metrics
unfolding record_request
record_all [] m = m
record_all ((status, duration) ∷ reqs) m = record_all reqs (record_request status duration m)

-- How many of the requests have a status of which `p` holds.
abbrev pub how_many : (ℕ → Bool) → List (ℕ × ℕ) → ℕ
how_many p [] = 0
how_many p ((status, _) ∷ reqs) = let rest = how_many p reqs in if p status then suc rest else rest

totals_from :
    (reqs : List (ℕ × ℕ)) (m : Metrics) (s a b c : ℕ)
    → m.total_requests ≡ u64 a
    → m.total_errors ≡ u64 b
    → m.status_counts s ≡ u64 c
    → let m' = record_all reqs m in
      (m'.total_requests ≡ u64 (a + length reqs))
      × (m'.total_errors ≡ u64 (b + how_many (leb 500) reqs))
      × (m'.status_counts s ≡ u64 (c + how_many (λ t. t == s) reqs))
unfolding record_all
totals_from [] m s a b c ha hb hc = (ha ∙ omega arith, hb ∙ omega arith, hc ∙ omega arith)
totals_from ((status, duration) ∷ reqs) m s a b c ha hb hc =
    let ih =
      totals_from reqs (record_request status duration m) s (a + 1)
        (b + (if leb 500 status then 1 else 0)) (c + (if status == s then 1 else 0))
        (unfold record_request in omega arith) (unfold record_request in ground arith)
        (unfold record_request in ground arith) in
    ground (arith, ih)

-- After any requests the counters are the number of requests, of those with a status of 500 or
-- more, and, for each status, of those with that status, all modulo 2 ^ 64.
pub record_all-totals :
    (reqs : List (ℕ × ℕ)) (s : ℕ)
    → let m = record_all reqs new_metrics in
      (m.total_requests ≡ u64 (length reqs))
      × (m.total_errors ≡ u64 (how_many (leb 500) reqs))
      × (m.status_counts s ≡ u64 (how_many (λ t. t == s) reqs))
unfolding new_metrics
record_all-totals reqs s =
    let all_ = totals_from reqs new_metrics s 0 0 0 refl refl refl in omega (arith, all_)
