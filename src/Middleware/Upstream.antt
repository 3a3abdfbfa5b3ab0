-- ===== src/Middleware/Upstream.antt =====
-- internal/middleware/upstream.go. The recorder passes every call on (Logged). Its Flush, which
-- tracing.go does not declare, is a parameter, and so are the decimal digits of a number. The log
-- line is left out.
use cascade_proxy.Common.{
  ℕ, ◌-◌, ◌/◌, ◌≡◌, refl, ap, ◌∙◌, true, is_some-some, List, [], ◌∷◌, ◌++◌, Text, ascii,
}
use cascade_proxy.Http.{
  Header, Handler, Request, WriteOp, Clock, set_header, response, apply_all, apply, start, finish,
}
use cascade_proxy.Http.Errors.{sends, sends_sent}
use cascade_proxy.Middleware.Recorder.Laws.{apply_all-append}

pub record Config : Type 0 where
  pub status_header : Text
  pub slow_threshold : ℕ

abbrev pub default_config : Config
default_config = record { status_header = ascii "X-Upstream-Ms"; slow_threshold = 500_000_000 }

module _ {W : Type 0} (clock : Clock W) (format : ℕ → Text) (flush : List WriteOp) where
  -- The handler that NewUpstreamMiddleware makes.
  unfoldable pub handle : Config → Handler W → Handler W
  handle cfg next r h w =
      let (ops, w') = next r h w in
      let ms = (clock.now w' - clock.now w) / 1_000_000 in
      (ops ++ (set_header cfg.status_header (format ms) ∷ flush), w')

  -- Where the flush writes nothing, the header comes too late: if the handler has sent a status or
  -- a body, the client gets its response without it.
  pub handle_late :
      (cfg : Config) (next : Handler W) (r : Request) (h : Header) (w : W)
      → flush ≡ []
      → sends (next r h w).0 ≡ true
      → response h (handle cfg next r h w).0 ≡ response h (next r h w).0
  unfolding handle response apply_all apply
  handle_late cfg next r h w nothing sent_ =
      let ops = (next r h w).0 in
      let (s, e) = is_some-some (apply_all (start h) ops).sent (sends_sent (start h) ops sent_) in
      rw nothing (ap finish (apply_all-append (start h) ops _) ∙ rw e refl)
