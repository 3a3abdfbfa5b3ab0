-- ===== src/Middleware/BodySize.antt =====
-- internal/middleware/bodysize.go. `content_length` is the request's declared length, `none` where
-- it is -1; `limit_reader` is what a request reads through http.MaxBytesReader.
use cascade_proxy.Common.{
  ℕ, Bool, false, ◌&&◌, List, Option, none, some, ltb, is_some, if◌then◌else◌, ascii,
}
use cascade_proxy.Http.{Handler, WriteOp, Request, http_error}

pub record Config : Type 0 where
  pub max_bytes : ℕ

abbrev pub default_config : Config
default_config = record { max_bytes = 1_048_576 }

abbrev pub too_large : List WriteOp
too_large = http_error (ascii "request body too large") 413

abbrev pub declared_over : Config → Option ℕ → Bool
declared_over cfg none = false
declared_over cfg (some n) = ltb cfg.max_bytes n

module _ (content_length : Request → Option ℕ) (limit_reader : ℕ → Request → Request) where
  -- The handler that NewBodySizeMiddleware makes.
  unfoldable pub handle : {W : Type 0} → Config → Handler W → Handler W
  handle cfg next r h w =
      if is_some r.body && declared_over cfg (content_length r)
      then (too_large, w)
      else next (if is_some r.body then limit_reader cfg.max_bytes r else r) h w
