-- ===== src/Middleware/ProxyError.antt =====
-- internal/middleware/proxyerror.go. The recorder is an interface, and http.StatusText a parameter.
-- The log line is left out.
use cascade_proxy.Common.{
  ℕ, ◌≡◌, Bool, false, ◌&&◌, ◌||◌, [], ◌∷◌, ◌++◌, ◌==◌, if◌then◌else◌, Text, ascii, Bool-cases, inl,
  inr,
}
use cascade_proxy.Http.{
  Header, Handler, Request, set_header, write_header, write_body, set, header_after, header_ops,
  response, apply_all, apply,
}
use cascade_proxy.Http.Laws.{response-header_ops}
use cascade_proxy.Middleware.Recording.{Recording}

pub record Config : Type 0 where
  pub include_details : Bool

abbrev pub default_config : Config
default_config = record { include_details = false }

-- the statuses of the switch
abbrev pub is_proxy_error : ℕ → Bool
is_proxy_error code = code == 502 || (code == 503 || code == 504)

abbrev pub x_proxy_error : Text
x_proxy_error = ascii "X-Proxy-Error"

module _ {W : Type 0} (rec : Recording) (status_text : ℕ → Text) where
  -- The handler that NewProxyErrorMiddleware makes. The recorder has a header of its own, empty at
  -- first.
  unfoldable pub handle : Config → Handler W → Handler W
  handle cfg next r h w =
      let (ops, w') = next r [] w in
      let code = rec.status ops in
      (
        (if is_proxy_error code && cfg.include_details
              then set_header x_proxy_error (status_text code) ∷ []
              else [])
            ++ (header_ops (rec.header ops)
                ++ (write_header code ∷ write_body (rec.body ops) ∷ [])),
        w',
      )

  -- The client gets the recorded status and body, and the recorded header added to that of the
  -- outer handlers; if details are configured and the status is 502, 503 or 504, that has the text
  -- of the status under X-Proxy-Error before.
  pub handle-response :
      (cfg : Config) (next : Handler W) (r : Request) (h : Header) (w : W)
      → let ops = (next r [] w).0 in
        let code = rec.status ops in
        let before =
          if is_proxy_error code && cfg.include_details
          then set x_proxy_error (status_text code) h
          else h in
        response h (handle cfg next r h w).0 ≡ record {
          status = code;
          header = header_after before (header_ops (rec.header ops));
          body = rec.body ops;
        }
  unfolding handle response apply_all apply
  handle-response cfg next r h w =
      let ops = (next r [] w).0 in
      let code = rec.status ops in
      let end = write_header code ∷ write_body (rec.body ops) ∷ [] in
      elim (Bool-cases (is_proxy_error code && cfg.include_details)) [
        | inl told ↦
            rw told
              (response-header_ops (set x_proxy_error (status_text code) h) (rec.header ops) end)
        | inr quiet ↦ rw quiet (response-header_ops h (rec.header ops) end)
      ]
