-- ===== src/Balancer.antt =====
-- internal/balancer/balancer.go. `url.Parse` is a parameter: any function from texts to a URL or an
-- error.
pub mod RoundRobin
pub mod Targets
mod Examples
use cascade_proxy.Common.{
  ℕ, zero, suc, ◌+◌, ◌-◌, ◌%◌, ◌^◌, Option, none, some, List, [], ◌∷◌, ◌++◌, length, get_elem?,
  Text, Result, ok, err, ◌>>=◌,
}

pub record Config : Type 0 where
  pub targets : List Text

pub data Error (E : Type 0) : Type 0 where
  no_targets : Error E
  invalid_url : E → Error E

pub record Balancer (Url : Type 0) : Type 0 where
  pub targets : List Url
  pub counter : ℕ  -- uint64

abbrev pub u64 : ℕ → ℕ
u64 n = n % 2 ^ 64

-- What `Next` does: a target, the error, or the panic of an index out of range.
pub data Choice (Url : Type 0) : Type 0 where
  target : Url → Choice Url
  failed : Choice Url
  panicked : Choice Url

module _ {Url E : Type 0} (parse : Text → Result E Url) where
  -- the loop of `New`
  unfoldable pub parse_all : List Url → List Text → Result (Error E) (List Url)
  parse_all urls [] = ok urls
  parse_all urls (t ∷ ts) = elim (parse t) [
    | ok u ↦ parse_all (urls ++ (u ∷ [])) ts
    | err e ↦ err (invalid_url e)
  ]

  new_from : List Text → Result (Error E) (Balancer Url)
  unfolding parse_all
  new_from [] = err no_targets
  new_from (t ∷ ts) = do urls ← parse_all [] (t ∷ ts); ok (record { targets = urls; counter = 0 })

  unfoldable pub new : Config → Result (Error E) (Balancer Url)
  unfolding new_from
  new cfg = new_from cfg.targets

module _ {Url : Type 0} where
  abbrev pub index : Option Url → Choice Url
  index none = panicked
  index (some u) = target u

  next_from : List Url → Balancer Url → Choice Url × Balancer Url
  next_from [] b = (failed, b)
  next_from (u ∷ us) b =
      let counter' = u64 (b.counter + 1) in
      let idx = u64 (counter' + 2 ^ 64 - 1) in
      (index (get_elem? b.targets (idx % length b.targets)), record b { counter = counter' })

  unfoldable pub next : Balancer Url → Choice Url × Balancer Url
  unfolding next_from
  next b = next_from b.targets b

  unfoldable pub len : Balancer Url → ℕ
  len b = length b.targets
