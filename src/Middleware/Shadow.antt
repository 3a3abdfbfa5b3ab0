-- ===== src/Middleware/Shadow.antt =====
-- internal/middleware/shadow.go. What io.ReadAll makes of a body, an error being `none`, and the
-- sending of the shadow request by a goroutine of its own are parameters: the world takes the
-- request in, and nothing comes back but log lines, which are left out.
use cascade_proxy.Common.{
  ℕ, ◌≡◌, refl, ap, ◌∙◌, Option, none, some, [], ◌∷◌, ◌++◌, if◌then◌else◌, Text, ascii, text_eq,
  lookup,
}
use cascade_proxy.Http.{
  Header, Handler, Request, http_error, set, header_after, header_ops, at_key, IsCanonical,
}
use cascade_proxy.Http.Canonical.{canonical}
use cascade_proxy.Http.Laws.{at_key-set, at_key-header_ops}

pub record Config : Type 0 where
  pub shadow_url : Text
  pub timeout : ℕ

abbrev pub default_config : Text → Config
default_config shadow_url = record { shadow_url = shadow_url; timeout = 2_000_000_000 }

-- The request that the goroutine builds: method, URL, header and body.
pub record ShadowRequest : Type 0 where
  pub method : Text
  pub url : Text
  pub header : Header
  pub body : Text

-- The loop adds each value to the empty header of the new request.
unfoldable pub shadow_of : Config → Request → Text → ShadowRequest
shadow_of cfg r body = record {
  method = r.method;
  url = cfg.shadow_url ++ r.request_uri;
  header = set (ascii "X-Shadow-Request") (ascii "true") (header_after [] (header_ops r.header));
  body = body;
}

module _ {W : Type 0} (read_all : Text → Option Text) (launch : ShadowRequest → W → W) where
  mirrored : Config → Handler W → Option Text → Handler W
  unfolding shadow_of
  mirrored cfg next none r h w = (http_error (ascii "failed to read request body") 500, w)
  mirrored cfg next (some body) r h w =
      next (record r { body = some body }) h (launch (shadow_of cfg r body) w)

  -- The handler that NewShadowMiddleware makes. A nil body is left alone.
  unfoldable pub handle : Config → Handler W → Handler W
  unfolding mirrored
  handle cfg next r h w = elim r.body [
    | none ↦ next r h (launch (shadow_of cfg r []) w)
    | some b ↦ mirrored cfg next (read_all b) r h w
  ]

-- The bytes of a body; a nil body has none.
abbrev pub bytes_of : Option Text → Text
bytes_of none = []
bytes_of (some b) = b

-- Where io.ReadAll gets the whole body, the next handler is asked just as without the mirror, with
-- the whole body, in a world into which the shadow request is sent. That has the method, the body
-- and, below the configured base, the URI of the request, and under each key the values of its
-- header, which is canonical, but for the mark of a shadow request.
pub handle-mirrors :
    {W : Type 0} (read_all : Text → Option Text) (launch : ShadowRequest → W → W)
    → ((b : Text) → read_all b ≡ some b)
    → (cfg : Config) (next : Handler W) (r : Request) (h : Header) (w : W) → IsCanonical r.header
    → (shadow : ShadowRequest) × (handle read_all launch cfg next r h w
        ≡ next r h (launch shadow w))
      × (shadow.method ≡ r.method)
      × (shadow.url ≡ cfg.shadow_url ++ r.request_uri)
      × (shadow.body ≡ bytes_of r.body)
      × ((j : Text)
          → at_key j shadow.header ≡ (
              if text_eq (canonical (ascii "X-Shadow-Request")) j
              then ascii "true" ∷ []
              else at_key j r.header))
unfolding handle shadow_of lookup
handle-mirrors read_all launch whole cfg next r h w canon = (
  shadow_of cfg r (bytes_of r.body),
  mirrors r.body refl,
  refl,
  refl,
  refl,
  λ j.
      at_key-set (ascii "X-Shadow-Request") (ascii "true") j (header_after [] (header_ops r.header))
      ∙ rw (at_key-header_ops [] r.header j canon) refl,
)
  where
    mirrors :
        (o : Option Text)
        → r.body ≡ o
        → handle read_all launch cfg next r h w
          ≡ next r h (launch (shadow_of cfg r (bytes_of r.body)) w)
    mirrors none e = rw e refl
    mirrors (some b) e =
        rw e
          (ap (λ o. mirrored read_all launch cfg next o (record r { body = some b }) h w) (whole b))
