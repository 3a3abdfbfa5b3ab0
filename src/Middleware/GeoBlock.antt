-- ===== src/Middleware/GeoBlock.antt =====
-- internal/middleware/geoblock.go. strings.ToUpper, strings.TrimSpace and http.StatusText are
-- parameters. The log lines, and `remoteIP`, which they alone use, are left out.
use cascade_proxy.Common.{
  ℕ, ◌≡◌, refl, Bool, true, false, not, ◌&&◌, ◌||◌, List, [], ◌∷◌, map, arith, if◌then◌else◌, Text,
  ascii, text_eq, member,
}
use cascade_proxy.Http.{Header, Handler, WriteOp, Request, get, http_error}

pub record Config : Type 0 where
  pub blocked_countries : List Text
  pub allowed_countries : List Text
  pub country_header : Text
  pub deny_status : ℕ

abbrev pub default_config : Config
default_config = record {
  blocked_countries = [];
  allowed_countries = [];
  country_header = ascii "X-Country-Code";
  deny_status = 403;
}

-- len(m) > 0
abbrev pub is_nonempty : List Text → Bool
is_nonempty [] = false
is_nonempty (_ ∷ _) = true

module _ (upper trim_space : Text → Text) (status_text : ℕ → Text) where
  -- toSet
  unfoldable pub to_set : List Text → List Text
  to_set codes = map upper codes

  unfoldable pub country_of : Config → Request → Text
  country_of cfg r = upper (trim_space (get cfg.country_header r.header))

  abbrev pub denied : Config → List WriteOp
  denied cfg = http_error (status_text cfg.deny_status) cfg.deny_status

  -- The handler that NewGeoBlockMiddleware makes.
  unfoldable pub handle : {W : Type 0} → Config → Handler W → Handler W
  unfolding to_set country_of
  handle cfg next r h w =
      let allowed = to_set cfg.allowed_countries in
      let blocked = to_set cfg.blocked_countries in
      let country = country_of cfg r in
      if text_eq country []
      then next r h w
      else if is_nonempty allowed
      then if not (member country allowed) then (denied cfg, w) else next r h w
      else if member country blocked
      then (denied cfg, w)
      else next r h w

  map-is_nonempty : (codes : List Text) → is_nonempty (map upper codes) ≡ is_nonempty codes
  map-is_nonempty [] = refl
  map-is_nonempty (c ∷ codes) = refl

  map-empty :
      (codes : List Text) (c : Text)
      → is_nonempty codes ≡ false
      → member c (map upper codes) ≡ false
  map-empty [] c e = refl
  map-empty (d ∷ codes) c e = cc

  -- A request without a country is passed on. With an allowlist, one from a country is passed on
  -- if the country is in it, whatever the blocklist says; without one, if the country is not in the
  -- blocklist. Every other request is answered with the status for denials. Countries are compared
  -- in capitals.
  pub geo_rule :
      {W : Type 0} (cfg : Config) (next : Handler W) (r : Request) (h : Header) (w : W)
      → let country = country_of cfg r in
        handle cfg next r h w ≡ (
          if text_eq country []
            || member country (map upper cfg.allowed_countries)
            || (not (is_nonempty cfg.allowed_countries)
                && not (member country (map upper cfg.blocked_countries)))
          then next r h w
          else (denied cfg, w))
  unfolding handle to_set country_of
  geo_rule cfg next r h w = ground (
    arith,
    map-is_nonempty cfg.allowed_countries,
    map-empty cfg.allowed_countries (country_of cfg r),
  )
