-- ===== src/Middleware/Sanitize.antt =====
-- internal/middleware/sanitize.go. strings.ToUpper and the number of keys of r.URL.Query() are
-- parameters.
use cascade_proxy.Common.{
  ℕ, ◌≡◌, refl, Bool, true, false, not, ◌&&◌, List, [], ◌∷◌, map, arith, ltb, any, if◌then◌else◌,
  Text, ascii, text_eq, member,
}
use cascade_proxy.Http.{Header, Handler, WriteOp, at_key, del, http_error}
use cascade_proxy.Http.Canonical.{canonical}
use cascade_proxy.Http.Laws.{at_key-del}

pub record Config : Type 0 where
  pub strip_headers : List Text
  pub max_query_params : ℕ
  pub allowed_methods : List Text

abbrev pub default_config : Config
default_config = record {
  strip_headers = ascii "X-Forwarded-For" ∷ ascii "X-Real-IP" ∷ [];
  max_query_params = 50;
  allowed_methods =
      ascii "GET"
      ∷ ascii "POST"
      ∷ ascii "PUT"
      ∷ ascii "PATCH"
      ∷ ascii "DELETE"
      ∷ ascii "HEAD"
      ∷ ascii "OPTIONS"
      ∷ [];
}

-- for h := range stripSet { r.Header.Del(h) }
unfoldable pub strip : List Text → Header → Header
strip [] h = h
strip (k ∷ ks) h = strip ks (del (canonical k) h)

abbrev pub is_nonempty : List Text → Bool
is_nonempty [] = false
is_nonempty (_ ∷ _) = true

abbrev pub not_allowed : List WriteOp
not_allowed = http_error (ascii "Method Not Allowed") 405

abbrev pub too_many : List WriteOp
too_many = http_error (ascii "Too Many Query Parameters") 400

module _ (upper : Text → Text) (query_keys : Text → ℕ) where
  -- The handler that NewSanitizeMiddleware makes.
  unfoldable pub handle : {W : Type 0} → Config → Handler W → Handler W
  unfolding strip
  handle cfg next r h w =
      let methods = map upper cfg.allowed_methods in
      if is_nonempty methods && not (member r.method methods)
      then (not_allowed, w)
      else if ltb 0 cfg.max_query_params && ltb cfg.max_query_params (query_keys r.raw_query)
      then (too_many, w)
      else next (record r { header = strip cfg.strip_headers r.header }) h w

-- Of the header, the next handler sees no value under a key that is to be stripped, however its
-- name is spelled in the configuration, and all others as they were. The key in question is in the
-- canonical form.
pub at_key-strip :
    (ks : List Text) (h : Header) (j : Text)
    → at_key j (strip ks h)
      ≡ (if any (λ k. text_eq (canonical (canonical k)) j) ks then [] else at_key j h)
unfolding strip
at_key-strip [] h j = refl
at_key-strip (k ∷ ks) h j =
    rw (at_key-strip ks (del (canonical k) h) j, at_key-del (canonical k) j h) (ground arith)
