-- ===== src/Middleware/RequestTransform/Bodies.antt =====
-- What the next handler gets of a request.
use cascade_proxy.Common.{
  ℕ, ◌≡◌, ◌≢◌, refl, Bool, false, not, ◌&&◌, Option, none, some, List, [], ◌∷◌, is_nil,
  if◌then◌else◌, Text, ascii, text_eq, contains, Bool-cases, inl, inr, All,
}
use cascade_proxy.Http.{Header, Handler, Request, WriteOp, get, http_error}
use cascade_proxy.Middleware.RequestTransform.{
  Rule, Config, replace_all, transform, transform_body, with_body, handle,
}
use cascade_proxy.Middleware.RequestTransform.Pieces.{Replaced, replace_all-Replaced}

-- The rule is for other content types than this one.
abbrev pub is_skipped : Text → Rule → Bool
is_skipped ct rule = not (text_eq rule.content_type []) && not (contains ct rule.content_type)

-- One text comes from another by the rules that are not skipped, in their order.
abbrev pub IsTransformed : Text → List Rule → Text → Text → Type 0
IsTransformed ct [] s t = s ≡ t
IsTransformed ct (rule ∷ rules) s t =
    (u : Text) × (if is_skipped ct rule then u ≡ s else Replaced rule.find rule.replace s u)
    × IsTransformed ct rules u t

-- What becomes of a request whose body reads like this.
abbrev pub IsRead :
    {W : Type 0}
    → Config
    → Handler W
    → Request
    → Header
    → W
    → Option Text
    → List WriteOp × W
    → Type 0
IsRead cfg next r h w none got = got ≡ (http_error (ascii "failed to read request body") 400, w)
IsRead cfg next r h w (some s) got =
    (t : Text) × IsTransformed (get (ascii "Content-Type") r.header) cfg.rules s t
    × (got ≡ next (record r { body = some t }) h w)

-- What becomes of a request with this body.
abbrev pub Passes :
    {W : Type 0}
    → (Text → Option Text)
    → Config
    → Handler W
    → Request
    → Header
    → W
    → Option Text
    → List WriteOp × W
    → Type 0
Passes read_all cfg next r h w none got = got ≡ next r h w
Passes read_all cfg next r h w (some b) got = IsRead cfg next r h w (read_all b) got

module _ (char_len : Text → ℕ) where
  transform-IsTransformed :
      (ct : Text) (rules : List Rule) (s : Text)
      → All (λ rule. rule.find ≢ []) rules
      → IsTransformed ct rules s (transform char_len ct rules s)
  unfolding transform
  transform-IsTransformed ct [] s some_ = refl
  transform-IsTransformed ct (rule ∷ rules) s (this, some_) =
      elim (Bool-cases (is_skipped ct rule)) [
        | inl skipped ↦ rw skipped (s, refl, transform-IsTransformed ct rules s some_)
        | inr used ↦
            let u : Text = replace_all char_len s rule.find rule.replace in
            rw used (
              u,
              replace_all-Replaced char_len s rule.find rule.replace this,
              transform-IsTransformed ct rules u some_,
            )
      ]

  module _ (read_all : Text → Option Text) {W : Type 0} where
    transform_body-IsRead :
        (cfg : Config) (next : Handler W) (r : Request) (h : Header) (w : W) (o : Option Text)
        → All (λ rule. rule.find ≢ []) cfg.rules
        → IsRead cfg next r h w o (transform_body char_len read_all cfg next o r h w)
    unfolding transform_body
    transform_body-IsRead cfg next r h w none some_ = refl
    transform_body-IsRead cfg next r h w (some s) some_ =
        let ct = get (ascii "Content-Type") r.header in
        (transform char_len ct cfg.rules s, transform-IsTransformed ct cfg.rules s some_, refl)

    with_body-Passes :
        (cfg : Config) (next : Handler W) (r : Request) (h : Header) (w : W) (o : Option Text)
        → All (λ rule. rule.find ≢ []) cfg.rules
        → Passes read_all cfg next r h w o (with_body char_len read_all cfg next o r h w)
    unfolding with_body
    with_body-Passes cfg next r h w none some_ = refl
    with_body-Passes cfg next r h w (some b) some_ =
        transform_body-IsRead cfg next r h w (read_all b) some_

    -- With rules configured, none of which finds the empty text, a request without a body is passed
    -- on as it is. One whose body cannot be read is answered by 400, and the next handler is not
    -- asked. Else that gets the request with a body that comes from the one read by the rules for
    -- its content type, in their order, each of which replaces what it finds.
    pub handle-Passes :
        (cfg : Config) (next : Handler W) (r : Request) (h : Header) (w : W)
        → is_nil cfg.rules ≡ false
        → All (λ rule. rule.find ≢ []) cfg.rules
        → Passes read_all cfg next r h w r.body (handle char_len read_all cfg next r h w)
    unfolding handle
    handle-Passes cfg next r h w rules some_ =
        rw rules (with_body-Passes cfg next r h w r.body some_)
