-- ===== src/Server/Settings.antt =====
-- The targets that the environment names.
use cascade_proxy.Common.{
  ℕ, ◌*◌, ◌^◌, ◌≤◌, ◌≡◌, ◌≢◌, refl, ap, ◌∙◌, some, List, [], map, length, repeat, Text, ascii,
  text_eq, text_eq_iff, Dict, lookup, Result, ok, All, IsFree, split, join, split-join, Bool-cases,
  inl, inr,
}
use cascade_proxy.Balancer
use cascade_proxy.Balancer.{Balancer, target, len}
use cascade_proxy.Balancer.RoundRobin.{next_times, rounds}
use cascade_proxy.Balancer.Targets.{Parses, new_iff}
use cascade_proxy.CircuitBreaker
use cascade_proxy.RateLimiter
use cascade_proxy.Server.{
  env_or, comma, target_urls, start_balancer, start_checker, start_up, Parts,
}
use cascade_proxy.Proxy.Request.{Url}
use cascade_proxy.Proxy.Serve

env_or_named :
    (env : Dict Text) (key fallback v : Text)
    → lookup key env ≡ some v
    → v ≢ []
    → env_or env key fallback ≡ v
unfolding env_or
env_or_named env key fallback v named some_ = elim (Bool-cases (text_eq v [])) [
  | inl empty ↦ absurd (some_ ((text_eq_iff v []).0 empty))
  | inr full ↦ rw (named, full) refl
]

target_urls_named :
    (env : Dict Text) (ts : List Text)
    → ts ≢ []
    → All (IsFree comma) ts
    → lookup (ascii "BACKENDS") env ≡ some (join comma ts)
    → join comma ts ≢ []
    → target_urls env ≡ ts
unfolding target_urls
target_urls_named env ts some_ free named full =
    ap (split comma) (env_or_named env (ascii "BACKENDS") _ (join comma ts) named full)
    ∙ split-join comma ts some_ free

-- If BACKENDS lists texts with commas between them, which have no comma themselves and parse as
-- URLs, and the target of the proxy parses, the server starts. The calls of its balancer go round
-- these URLs in the order of the list, and its health check asks the same texts. The list is
-- neither empty nor the empty text alone, and the calls are at most 2 ^ 64.
pub start_up-in_turn :
    {E : Type 0} (parse : Text → Result E Url) (cfg : Serve.Config) (goal : Url) (env : Dict Text)
    (ts : List Text) (us : List Url) (m : ℕ)
    → parse cfg.target_url ≡ ok goal
    → ts ≢ []
    → All (IsFree comma) ts
    → lookup (ascii "BACKENDS") env ≡ some (join comma ts)
    → join comma ts ≢ []
    → Parses parse ts us
    → m * length us ≤ 2 ^ 64
    → (parts : Parts) × (start_up parse cfg env ≡ ok parts)
      × ((next_times (m * length us) parts.balancer).0 ≡ repeat m (map target us))
      × (parts.checker.targets ≡ ts)
unfolding start_up start_checker len
start_up-in_turn parse cfg goal env ts us m aimed some_ free named full each small =
    let listed = target_urls_named env ts some_ free named full in
    let b : Balancer Url = record { targets = us; counter = 0 } in
    let started : Balancer.new parse (record { targets = ts }) ≡ ok b =
      (new_iff parse (record { targets = ts }) b).1 (some_, each, refl) in
    let begun : start_balancer parse env ≡ ok b =
      unfold start_balancer in
      ap (λ l. Balancer.new parse (record { targets = l })) listed ∙ started in
    let aimed_at : Serve.new parse cfg
        ≡ ok (record { cfg = cfg; target = goal; cb = CircuitBreaker.new cfg.cb_config }) =
      unfold Serve.new in rw (aimed, Serve.new) refl in
    let parts : Parts = record {
      balancer = b;
      proxy = record { cfg = cfg; target = goal; cb = CircuitBreaker.new cfg.cb_config };
      breaker = CircuitBreaker.new CircuitBreaker.default_config;
      limiter = RateLimiter.new RateLimiter.default_config;
      checker = start_checker env;
    } in
    (
      parts,
      rw (begun, aimed_at, start_up) refl,
      rounds parse (record { targets = ts }) b m started small,
      listed,
    )
