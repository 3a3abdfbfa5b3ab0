-- ===== src/Middleware/Compress/Copied.antt =====
-- A handler that copies its body to the writer of compress.go with io.Copy, which stops with an
-- error when Write does not return the length of the piece that it is given.
use cascade_proxy.Common.{
  ℕ, ◌+◌, ◌≡◌, refl, ap, ◌∙◌, true, false, List, [], ◌∷◌, ◌++◌, leb, ◌==◌, arith, if◌then◌else◌,
  length, length-append, Bool-cases, inl, inr, Text,
}
use cascade_proxy.Middleware.Compress.{
  Gzip, GzipResponseWriter, on_write, write_result, compress_text,
}

-- The pieces up to the first that fills the buffer, of which `have` bytes are there before; and
-- all of them if the buffer was empty then.
abbrev pub up_to : ℕ → ℕ → List Text → List Text
up_to m have [] = []
up_to m have (b ∷ bs) =
    let rest = up_to m (have + length b) bs in
    b ∷ (if leb m (have + length b) then (if have == 0 then bs else []) else rest)

module _ {S : Type 0} (gzip : Gzip S) where
  -- The pieces that io.Copy writes.
  unfoldable pub copied : List Text → GzipResponseWriter S → List Text
  unfolding on_write write_result
  copied [] g = []
  copied (b ∷ bs) g =
      let rest = copied bs (on_write gzip b g).0 in
      b ∷ (if write_result gzip b g == length b then rest else [])

  copied_committed :
      (bs : List Text) (g : GzipResponseWriter S) → copied bs (record g { committed = true }) ≡ bs
  unfolding copied compress_text
  copied_committed [] g = refl
  copied_committed (b ∷ bs) g =
      let ih = copied_committed bs (record g { writer = (gzip.write b g.writer).1 }) in
      let same : (length b == length b) ≡ true = ground arith in rw same (ap (◌∷◌ b) ih)

  pub copied-up_to :
      (bs : List Text) (g : GzipResponseWriter S)
      → copied bs (record g { committed = false }) ≡ up_to g.min_length (length g.buf) bs
  unfolding copied compress_text
  copied-up_to [] g = refl
  copied-up_to (b ∷ bs) g =
      let buf : Text = g.buf ++ b in
      let size : length buf ≡ length g.buf + length b = length-append g.buf b in
      elim (Bool-cases (leb g.min_length (length g.buf + length b))) [
        | inl full ↦
            let all_ =
              copied_committed bs (record g { buf = buf; writer = (gzip.write buf g.writer).1 }) in
            elim (Bool-cases (length g.buf == 0)) [
              | inl empty_ ↦
                  let same : (length g.buf + length b == length b) ≡ true = ground arith in
                  rw (size, full, empty_, same) (ap (◌∷◌ b) all_)
              | inr some_ ↦
                  let other : (length g.buf + length b == length b) ≡ false = ground arith in
                  rw (size, full, some_, other) refl
            ]
        | inr short ↦
            let same : (length b == length b) ≡ true = ground arith in
            let ih = copied-up_to bs (record g { buf = buf }) in
            rw (size, short, same) (ap (◌∷◌ b) (ih ∙ rw size refl))
      ]
