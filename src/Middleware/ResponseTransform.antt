-- ===== src/Middleware/ResponseTransform.antt =====
-- internal/middleware/responsetransform.go. A compiled pattern is of a type `P`, and its ReplaceAll
-- a parameter. The recorder's header is the wrapped writer's own map, so that changes of it pass
-- through. `Result` is left out: nothing calls it.
pub mod Matching
pub mod Rewritten
use cascade_proxy.Common.{
  ℕ, zero, suc, ◌+◌, ◌-◌, Bool, true, false, not, ◌&&◌, ◌||◌, List, [], ◌∷◌, ◌++◌, leb,
  if◌then◌else◌, length, is_nil, take, drop, Text, ascii, text_eq,
}
use cascade_proxy.Http.{
  Header, Handler, WriteOp, set_header, add_header, del_header, write_header, write_body, get,
  header_after,
}

pub record TransformRule (P : Type 0) : Type 0 where
  pub pattern : P
  pub replacement : Text

pub record Config (P : Type 0) : Type 0 where
  pub rules : List (TransformRule P)
  pub content_types : List Text

abbrev pub default_config : (P : Type 0) → Config P
default_config P = record { rules = []; content_types = [] }

pub record TransformRecorder : Type 0 where
  pub header : Header
  pub code : ℕ
  pub body : Text

-- One call on the recorder, and what the wrapped writer sees of it.
unfoldable pub on_op : WriteOp → TransformRecorder → TransformRecorder × List WriteOp
on_op (write_header code) t = (record t { code = code }, [])
on_op (write_body b) t = (record t { body = t.body ++ b }, [])
on_op op t = (record t { header = header_after t.header (op ∷ []) }, op ∷ [])

unfoldable pub record_all : List WriteOp → TransformRecorder → TransformRecorder × List WriteOp
unfolding on_op
record_all [] t = (t, [])
record_all (op ∷ ops) t =
    let (t', told) = on_op op t in let (t'', rest) = record_all ops t' in (t'', told ++ rest)

-- s[i:i+len(sub)] == sub, for `n` values of `i` from this one on
unfoldable pub found_from : ℕ → ℕ → Text → Text → Bool
found_from zero i s sub = false
found_from (suc n) i s sub =
    if text_eq (take (length sub) (drop i s)) sub then true else found_from n (suc i) s sub

unfoldable pub contains_substring : Text → Text → Bool
unfolding found_from
contains_substring s sub =
    if leb (length sub) (length s) then found_from (suc (length s - length sub)) 0 s sub else false

unfoldable pub matches_any : Text → List Text → Bool
matches_any ct [] = false
matches_any ct (a ∷ allowed) =
    if leb (length a) (length ct) && contains_substring ct a then true else matches_any ct allowed

unfoldable pub matches_content_type : Text → List Text → Bool
unfolding matches_any
matches_content_type ct [] = true
matches_content_type ct (a ∷ allowed) = matches_any ct (a ∷ allowed)

module _ {P : Type 0} (replace_all : P → Text → Text → Text) where
  -- The loop over the rules; `replace_all pattern body replacement`.
  unfoldable pub transform : List (TransformRule P) → Text → Text
  transform [] body = body
  transform (rule ∷ rules) body = transform rules (replace_all rule.pattern body rule.replacement)

  -- The handler that NewResponseTransformMiddleware makes.
  unfoldable pub handle : {W : Type 0} → Config P → Handler W → Handler W
  unfolding transform matches_content_type record_all
  handle cfg next r h w =
      let (ops, w') = next r h w in
      if is_nil cfg.rules
      then (ops, w')
      else (let (t, told) = record_all ops (record { header = h; code = 200; body = [] }) in
          if not (matches_content_type (get (ascii "Content-Type") t.header) cfg.content_types)
          then (told ++ (write_header t.code ∷ write_body t.body ∷ []), w')
          else (
            told
                ++ (set_header (ascii "Content-Length") []
                    ∷ write_header t.code
                    ∷ write_body (transform cfg.rules t.body)
                    ∷ []),
            w',
          ))
