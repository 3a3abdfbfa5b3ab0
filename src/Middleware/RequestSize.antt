-- ===== src/Middleware/RequestSize.antt =====
-- internal/middleware/requestsize.go. The number of keys of r.Form after a ParseForm that succeeds
-- is a parameter, `none` where it fails. The log lines are left out.
use cascade_proxy.Common.{
  ℕ, ◌+◌, ◌≡◌, Bool, false, ◌&&◌, List, [], ◌∷◌, Option, none, some, arith, ltb, if◌then◌else◌,
  length, Text, ascii,
}
use cascade_proxy.Http.{Header, Handler, WriteOp, Request, http_error}

pub record Config : Type 0 where
  pub max_header_bytes : ℕ
  pub max_url_length : ℕ
  pub max_query_params : ℕ

abbrev pub default_config : Config
default_config = record { max_header_bytes = 8192; max_url_length = 2048; max_query_params = 50 }

-- the loop over the values of one key
unfoldable pub values_bytes : ℕ → List Text → ℕ
values_bytes total [] = total
values_bytes total (v ∷ vs) = values_bytes (total + length v) vs

-- the loop over the header
unfoldable pub header_bytes : ℕ → Header → ℕ
unfolding values_bytes
header_bytes total [] = total
header_bytes total ((name, vals) ∷ h) = header_bytes (values_bytes (total + length name) vals) h

abbrev pub too_long : List WriteOp
too_long = http_error (ascii "414 URI Too Long") 414

abbrev pub bad_request : List WriteOp
bad_request = http_error (ascii "400 Bad Request") 400

abbrev pub too_large : List WriteOp
too_large = http_error (ascii "431 Request Header Fields Too Large") 431

-- A limit of 0 is no limit.
abbrev pub exceeds : ℕ → ℕ → Bool
exceeds size limit = ltb 0 limit && ltb limit size

abbrev pub too_many : Config → Option ℕ → Bool
too_many cfg none = false
too_many cfg (some n) = exceeds n cfg.max_query_params

module _ (form_keys : Request → Option ℕ) where
  -- The handler that NewRequestSizeMiddleware makes.
  unfoldable pub handle : {W : Type 0} → Config → Handler W → Handler W
  unfolding header_bytes
  handle cfg next r h w =
      if exceeds (length r.request_uri) cfg.max_url_length
      then (too_long, w)
      else if too_many cfg (form_keys r)
      then (bad_request, w)
      else if exceeds (header_bytes 0 r.header) cfg.max_header_bytes
      then (too_large, w)
      else next r h w

-- The bytes of the names and of the values.
abbrev pub sum_length : List Text → ℕ
sum_length [] = 0
sum_length (v ∷ vs) = length v + sum_length vs

abbrev pub size : Header → ℕ
size [] = 0
size ((name, vals) ∷ h) = length name + sum_length vals + size h

values_bytes-sum_length :
    (total : ℕ) (vs : List Text) → values_bytes total vs ≡ total + sum_length vs
unfolding values_bytes
values_bytes-sum_length total [] = omega arith
values_bytes-sum_length total (v ∷ vs) =
    omega (arith, values_bytes-sum_length (total + length v) vs)

-- The two loops add the bytes of all names and of all values to the total that they start from.
pub header_bytes-size : (total : ℕ) (h : Header) → header_bytes total h ≡ total + size h
unfolding header_bytes
header_bytes-size total [] = omega arith
header_bytes-size total ((name, vals) ∷ h) = omega (
  arith,
  header_bytes-size (values_bytes (total + length name) vals) h,
  values_bytes-sum_length (total + length name) vals,
)
