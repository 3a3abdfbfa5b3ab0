-- ===== src/Middleware/Cors.antt =====
-- internal/middleware/cors.go.
use cascade_proxy.Common.{
  ◌≡◌, refl, Bool, false, List, [], ◌∷◌, ◌++◌, if◌then◌else◌, Text, ascii, text_eq, text_eq_refl,
  member, Bool-cases, inl, inr,
}
use cascade_proxy.Http.{
  Header, Handler, WriteOp, set_header, add_header, write_header, get, at_key, header_after, set,
}
use cascade_proxy.Http.Canonical.{canonical}
use cascade_proxy.Http.Laws.{at_key-set, at_key-add, header_after-append}

pub record Config : Type 0 where
  pub allowed_origins : List Text
  pub allowed_methods : List Text
  pub allowed_headers : List Text
  pub allow_credentials : Bool
  pub max_age : Text

abbrev pub default_config : Config
default_config = record {
  allowed_origins = ascii "*" ∷ [];
  allowed_methods =
      ascii "GET"
      ∷ ascii "POST"
      ∷ ascii "PUT"
      ∷ ascii "PATCH"
      ∷ ascii "DELETE"
      ∷ ascii "OPTIONS"
      ∷ [];
  allowed_headers =
      ascii "Origin" ∷ ascii "Content-Type" ∷ ascii "Authorization" ∷ ascii "Accept" ∷ [];
  allow_credentials = false;
  max_age = ascii "86400";
}

-- strings.Join(xs, ", ")
unfoldable pub join : List Text → Text
join [] = []
join (x ∷ []) = x
join (x ∷ y ∷ xs) = x ++ (b',' ∷ b' ' ∷ join (y ∷ xs))

abbrev pub allow_origin : Text
allow_origin = ascii "Access-Control-Allow-Origin"

abbrev pub allow_credentials : Text
allow_credentials = ascii "Access-Control-Allow-Credentials"

abbrev pub vary : Text
vary = ascii "Vary"

abbrev pub star : Text
star = b'*' ∷ []

-- what is set for every request with an origin
unfoldable pub origin_ops : Config → Text → List WriteOp
origin_ops cfg origin =
    if member star cfg.allowed_origins
    then set_header allow_origin star ∷ []
    else if member origin cfg.allowed_origins
    then set_header allow_origin origin ∷ add_header vary (ascii "Origin") ∷ []
    else []

unfoldable pub credentials_ops : Config → List WriteOp
credentials_ops cfg =
    if cfg.allow_credentials then set_header allow_credentials (ascii "true") ∷ [] else []

-- what is set for a preflight request
unfoldable pub preflight_ops : Config → List WriteOp
unfolding join
preflight_ops cfg =
    set_header (ascii "Access-Control-Allow-Methods") (join cfg.allowed_methods)
    ∷ set_header (ascii "Access-Control-Allow-Headers") (join cfg.allowed_headers)
    ∷ ((if text_eq cfg.max_age []
          then []
          else set_header (ascii "Access-Control-Max-Age") cfg.max_age ∷ [])
        ++ (write_header 204 ∷ []))

-- The handler that NewCORSMiddleware makes: what `next` does comes behind what is set before.
unfoldable pub handle : {W : Type 0} → Config → Handler W → Handler W
unfolding origin_ops credentials_ops preflight_ops
handle cfg next r h w =
    let origin = get (ascii "Origin") r.header in
    if text_eq origin []
    then next r h w
    else let before = origin_ops cfg origin ++ credentials_ops cfg in
      if text_eq r.method (ascii "OPTIONS")
      then (before ++ preflight_ops cfg, w)
      else let (ops, w') = next r (header_after h before) w in (before ++ ops, w')

canonical_names :
    (canonical allow_origin ≡ allow_origin)
    × (canonical allow_credentials ≡ allow_credentials)
    × (canonical vary ≡ vary)
unfolding canonical ascii
canonical_names = (refl, refl, refl)

names_differ :
    (text_eq vary allow_origin ≡ false) × (text_eq allow_credentials allow_origin ≡ false)
unfolding text_eq ascii
names_differ = (refl, refl)

at_key-credentials_ops :
    (cfg : Config) (h : Header)
    → at_key allow_origin (header_after h (credentials_ops cfg)) ≡ at_key allow_origin h
unfolding credentials_ops header_after
at_key-credentials_ops cfg h = elim (Bool-cases cfg.allow_credentials) [
  | inl on ↦
      rw
        (
          on,
          at_key-set allow_credentials (ascii "true") allow_origin h,
          canonical_names.1,
          names_differ.1,
        )
        refl
  | inr off ↦ rw off refl
]

at_key-own_ops :
    (cfg : Config) (origin : Text) (h : Header)
    → at_key allow_origin (header_after h (origin_ops cfg origin)) ≡ (
        if member star cfg.allowed_origins
        then star ∷ []
        else if member origin cfg.allowed_origins
        then origin ∷ []
        else at_key allow_origin h)
unfolding origin_ops header_after
at_key-own_ops cfg origin h = elim (Bool-cases (member star cfg.allowed_origins)) [
  | inl all_ ↦
      rw
        (
          all_,
          at_key-set allow_origin star allow_origin h,
          canonical_names.0,
          text_eq_refl allow_origin,
        )
        refl
  | inr some_ ↦ elim (Bool-cases (member origin cfg.allowed_origins)) [
    | inl this ↦
        rw
          (
            some_,
            this,
            at_key-add vary (ascii "Origin") allow_origin (set allow_origin origin h),
            at_key-set allow_origin origin allow_origin h,
            canonical_names.0,
            canonical_names.2,
            names_differ.0,
            text_eq_refl allow_origin,
          )
          refl
    | inr other ↦ rw (some_, other) refl
  ]
]

-- The header that a browser is told to compare with its origin, as it stands when the next handler
-- is asked: the star where every origin is allowed, the origin where it is in the list, and else
-- what outer handlers have set, so that an origin that is not allowed is never named by this one.
pub at_key-origin_ops :
    (cfg : Config) (origin : Text) (h : Header)
    → at_key allow_origin (header_after h (origin_ops cfg origin ++ credentials_ops cfg)) ≡ (
        if member star cfg.allowed_origins
        then star ∷ []
        else if member origin cfg.allowed_origins
        then origin ∷ []
        else at_key allow_origin h)
at_key-origin_ops cfg origin h =
    rw
      (
        header_after-append h (origin_ops cfg origin) (credentials_ops cfg),
        at_key-credentials_ops cfg (header_after h (origin_ops cfg origin)),
      )
      (at_key-own_ops cfg origin h)
