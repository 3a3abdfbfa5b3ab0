-- ===== src/Middleware/IpFilter.antt =====
-- internal/middleware/ip_filter.go. The package `net` and strings.TrimSpace are parameters; a nil
-- IP is `none`, which no block contains. The log lines are left out.
use cascade_proxy.Common.{
  ◌≡◌, refl, Bool, true, false, not, ◌&&◌, ◌||◌, Option, none, some, List, [], ◌∷◌, arith,
  if◌then◌else◌, any, All, Text, ascii, text_eq, ◌==◌,
}
use cascade_proxy.Http.{Header, Handler, WriteOp, Request, get, http_error}

pub record Config : Type 0 where
  pub allowed_cidrs : List Text
  pub blocked_cidrs : List Text

abbrev pub default_config : Config
default_config = record { allowed_cidrs = []; blocked_cidrs = [] }

abbrev pub forbidden : List WriteOp
forbidden = http_error (ascii "Forbidden") 403

abbrev pub forwarded_for : Text
forwarded_for = ascii "X-Forwarded-For"

-- strings.SplitN(s, ",", 2)[0]
unfoldable pub before_comma : Text → Text
before_comma [] = []
before_comma (c ∷ s) = let rest = before_comma s in if c == b',' then [] else c ∷ rest

abbrev pub is_empty : {A : Type 0} → List A → Bool
is_empty [] = true
is_empty (_ ∷ _) = false

module _ {Ip Net : Type 0} (parse_cidr : Text → Option Net) (contains : Net → Option Ip → Bool)
    (parse_ip : Text → Option Ip) (split_host : Text → Option Text) (trim_space : Text → Text) where
  unfoldable pub parse_cidrs : List Text → List Net
  parse_cidrs [] = []
  parse_cidrs (c ∷ cs) =
      let nets = parse_cidrs cs in elim (parse_cidr c) [ none ↦ nets | some n ↦ n ∷ nets ]

  unfoldable pub matches_cidr : Option Ip → List Net → Bool
  matches_cidr ip nets = any (λ n. contains n ip) nets

  remote_ip : Request → Option Ip
  remote_ip r = elim (split_host r.remote_addr) [
    | none ↦ parse_ip r.remote_addr
    | some host ↦ parse_ip host
  ]

  unfoldable pub extract_ip : Request → Option Ip
  unfolding remote_ip before_comma
  extract_ip r =
      let fwd = get forwarded_for r.header in
      if text_eq fwd [] then remote_ip r else elim (parse_ip (trim_space (before_comma fwd))) [
        | some ip ↦ some ip
        | none ↦ remote_ip r
      ]

  -- The handler that NewIPFilterMiddleware makes.
  unfoldable pub handle : {W : Type 0} → Config → Handler W → Handler W
  unfolding matches_cidr
  handle cfg next r h w =
      let allowed = parse_cidrs cfg.allowed_cidrs in
      let ip = extract_ip r in
      if matches_cidr ip (parse_cidrs cfg.blocked_cidrs)
      then (forbidden, w)
      else if not (is_empty allowed) && not (matches_cidr ip allowed)
      then (forbidden, w)
      else next r h w

  parse_cidrs-none : (cs : List Text) → All (λ c. parse_cidr c ≡ none) cs → parse_cidrs cs ≡ []
  unfolding parse_cidrs
  parse_cidrs-none [] h = refl
  parse_cidrs-none (c ∷ cs) (bad, bads) = rw (bad, parse_cidrs) (parse_cidrs-none cs bads)

  -- An allowlist of which no block parses denies nobody: a request from an address outside the
  -- blocked ranges is passed on, although the configuration names allowed ranges.
  pub unparsed_allowlist :
      {W : Type 0} (cfg : Config) (next : Handler W) (r : Request) (h : Header) (w : W)
      → All (λ c. parse_cidr c ≡ none) cfg.allowed_cidrs
      → matches_cidr (extract_ip r) (parse_cidrs cfg.blocked_cidrs) ≡ false
      → handle cfg next r h w ≡ next r h w
  unfolding handle
  unparsed_allowlist cfg next r h w bad clear =
      rw (parse_cidrs-none cfg.allowed_cidrs bad) (ground arith)

  judged_by :
      (r : Request) (ip : Ip)
      → text_eq (get forwarded_for r.header) [] ≡ false
      → parse_ip (trim_space (before_comma (get forwarded_for r.header))) ≡ some ip
      → extract_ip r ≡ some ip
  unfolding extract_ip
  judged_by r ip there parsed = rw (there, parsed) refl

  -- A request whose X-Forwarded-For starts with an address is judged by that address alone,
  -- wherever it comes from: it is answered 403 if the address is in a blocked range, or if ranges
  -- are allowed and it is in none, and else it is passed on.
  pub forwarded_decides :
      {W : Type 0} (cfg : Config) (next : Handler W) (r : Request) (h : Header) (w : W) (ip : Ip)
      → text_eq (get forwarded_for r.header) [] ≡ false
      → parse_ip (trim_space (before_comma (get forwarded_for r.header))) ≡ some ip
      → let allowed = parse_cidrs cfg.allowed_cidrs in
        handle cfg next r h w ≡ (
          if matches_cidr (some ip) (parse_cidrs cfg.blocked_cidrs)
            || (not (is_empty allowed) && not (matches_cidr (some ip) allowed))
          then (forbidden, w)
          else next r h w)
  unfolding handle
  forwarded_decides cfg next r h w ip there parsed = rw (judged_by r ip there parsed) (ground arith)
