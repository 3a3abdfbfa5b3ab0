-- ===== src/Middleware/Maintenance.antt =====
-- internal/middleware/maintenance.go. The flag `Enabled` is read from the world; decimal numbers
-- and the JSON body, which holds the time, are parameters. `RetryAfter` is not negative.
use cascade_proxy.Common.{
  ℕ, ◌≡◌, refl, Bool, not, ◌||◌, List, [], ◌∷◌, ◌++◌, ltb, ◌==◌, if◌then◌else◌, Text, ascii, member,
  Bool-cases, inl, inr,
}
use cascade_proxy.Http.{
  Header, Handler, WriteOp, set_header, write_header, write_body, Request, content_type, response,
  apply_all, apply,
}

pub record Config : Type 0 where
  pub status_code : ℕ
  pub message : Text
  pub allowed_paths : List Text
  pub retry_after : ℕ

abbrev pub default_config : Config
default_config = record {
  status_code = 503;
  message = ascii "Service is temporarily unavailable. Please try again later.";
  allowed_paths = ascii "/healthz" ∷ ascii "/readyz" ∷ [];
  retry_after = 30;
}

abbrev pub status_of : Config → ℕ
status_of cfg = if cfg.status_code == 0 then 503 else cfg.status_code

module _ {W : Type 0} (enabled : W → Bool) (decimal : ℕ → Text) (encode : Text → W → Text) where
  unfoldable pub notice : Config → W → List WriteOp
  notice cfg w =
      set_header content_type (ascii "application/json")
      ∷ ((if ltb 0 cfg.retry_after
            then set_header (ascii "Retry-After") (decimal cfg.retry_after) ∷ []
            else [])
          ++ (write_header (status_of cfg) ∷ write_body (encode cfg.message w) ∷ []))

  -- The handler that NewMaintenanceMiddleware makes.
  unfoldable pub handle : Config → Handler W → Handler W
  unfolding notice
  handle cfg next r h w =
      if not (enabled w)
      then next r h w
      else if member r.path cfg.allowed_paths
      then next r h w
      else (notice cfg w, w)

  response-notice :
      (cfg : Config) (w : W) (h : Header)
      → ((response h (notice cfg w)).status ≡ status_of cfg)
        × ((response h (notice cfg w)).body ≡ encode cfg.message w)
  unfolding notice response apply_all apply
  response-notice cfg w h = elim (Bool-cases (ltb 0 cfg.retry_after)) [
    | inl later ↦ rw later (refl, refl)
    | inr never ↦ rw never (refl, refl)
  ]

  -- Under maintenance a request for a path that is not excepted is answered with the configured
  -- status, 503 if that is 0, and the encoded message, and the next handler is not asked. Without
  -- maintenance, and for an excepted path, the request is passed on.
  pub maintenance_rule :
      (cfg : Config) (next : Handler W) (r : Request) (h : Header) (w : W)
      → let (ops, w') = handle cfg next r h w in
        let open_ = not (enabled w) || member r.path cfg.allowed_paths in
        (w' ≡ (if open_ then (next r h w).1 else w))
        × ((response h ops).status
            ≡ (if open_ then (response h (next r h w).0).status else status_of cfg))
        × ((response h ops).body
            ≡ (if open_ then (response h (next r h w).0).body else encode cfg.message w))
  unfolding handle
  maintenance_rule cfg next r h w = elim (Bool-cases (enabled w)) [
    | inr off ↦ rw off (refl, refl, refl)
    | inl on ↦ elim (Bool-cases (member r.path cfg.allowed_paths)) [
      | inl excepted ↦ rw (on, excepted) (refl, refl, refl)
      | inr barred ↦
          let (status, body) = response-notice cfg w h in rw (on, barred) (refl, status, body)
    ]
  ]
