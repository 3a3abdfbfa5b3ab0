-- ===== src/Middleware/Canary.antt =====
-- internal/middleware/canary.go. The reverse proxy of the standard library and url.Parse are
-- parameters, and so is the random source: `draw` is rand.Intn(100) in a world.
use cascade_proxy.Common.{
  ℕ, ◌<◌, ◌≡◌, Bool, true, false, not, ◌&&◌, ◌||◌, [], ◌∷◌, arith, ltb, leb, if◌then◌else◌, Text,
  ascii, text_eq, Result, ok, err,
}
use cascade_proxy.Http.{Handler, set_header, Request, get, set}

-- The weight is not negative.
pub record Config : Type 0 where
  pub weight : ℕ
  pub canary_url : Text
  pub header_override : Text

abbrev pub default_config : Config
default_config = record { weight = 10; canary_url = []; header_override = ascii "X-Canary" }

abbrev pub overridden : Config → Request → Bool
overridden cfg r =
    not (text_eq cfg.header_override []) && not (text_eq (get cfg.header_override r.header) [])

abbrev pub routed : Text
routed = ascii "X-Canary-Routed"

module _ {W : Type 0} (draw : W → ℕ × W) where
  unfoldable pub is_canary_request : Request → Config → W → Bool × W
  is_canary_request r cfg w =
      if overridden cfg r
      then (true, w)
      else if leb cfg.weight 0
      then (false, w)
      else if leb 100 cfg.weight
      then (true, w)
      else (let (n, w') = draw w in (ltb n cfg.weight, w'))

  split : Handler W → Handler W → Bool × W → Handler W
  split canary next (true, w') r h w =
      let (ops, w'') = canary r (set routed (ascii "true") h) w' in
      (set_header routed (ascii "true") ∷ ops, w'')
  split canary next (false, w') r h w = next r h w'

  -- The handler that NewCanaryMiddleware makes; `reverse_proxy` is the one for a target.
  unfoldable pub handle :
      {Url E : Type 0}
      → (Text → Result E Url)
      → (Url → Handler W)
      → Config
      → Handler W
      → Result E (Handler W)
  unfolding split is_canary_request
  handle parse reverse_proxy cfg next =
      if text_eq cfg.canary_url [] then ok next else elim (parse cfg.canary_url) [
        | err e ↦ err e
        | ok target ↦
            ok λ r h w. split (reverse_proxy target) next (is_canary_request r cfg w) r h w
      ]

  -- Where the weight is below 100 and no header overrides it, a request goes to the canary exactly
  -- if the number drawn is below the weight; the draw, of a number below 100, is then made, unless
  -- the weight is 0. So no request goes there at weight 0, and each does at weight 100.
  pub canary_rule :
      (r : Request) (cfg : Config) (w : W)
      → (draw w).0 < 100
      → (is_canary_request r cfg w).0 ≡ (overridden cfg r || ltb (draw w).0 cfg.weight)
  unfolding is_canary_request
  canary_rule r cfg w small = ground arith
