-- ===== src/Middleware/Compress/Body.antt =====
-- What reaches the client of a compressed answer.
use cascade_proxy.Common.{
  ℕ, ◌≡◌, refl, sym, ap, ◌∙◌, Bool, true, false, List, [], ◌∷◌, ◌++◌, map, arith, leb,
  if◌then◌else◌, length, length-append, append_assoc, append-nil, Bool-cases, inl, inr, Text,
  concat,
}
use mathlib.Core.List.{map-append}
use cascade_proxy.Http.{write_body}
use cascade_proxy.Middleware.Compress.{
  Gzip, GzipResponseWriter, commit, on_op, on_write, compress_text, flush, shrink,
}

module _ {S : Type 0} (gzip : Gzip S) where
  -- All that the gzip writer writes of these texts, up to its close.
  abbrev pub compressed : List Text → S → List Text
  compressed [] s = gzip.close s
  compressed (t ∷ ts) s = (gzip.write t s).0 ++ compressed ts (gzip.write t s).1

  -- Some call of Write makes the buffer long enough.
  abbrev pub reached : ℕ → Text → List Text → Bool
  reached min_length buf [] = false
  reached min_length buf (b ∷ bs) = leb min_length (length (buf ++ concat (b ∷ bs)))

  -- Once it is committed, everything goes through the gzip writer.
  shrink_committed :
      (bs : List Text) (g : GzipResponseWriter S)
      → shrink gzip (map write_body bs) (record g { committed = true })
        ≡ map write_body (compressed bs g.writer)
  unfolding shrink on_op on_write compress_text flush
  shrink_committed [] g = refl
  shrink_committed (b ∷ bs) g =
      ap (λ rest. map write_body (gzip.write b g.writer).0 ++ rest)
        (shrink_committed bs (record g { writer = (gzip.write b g.writer).1 }))
      ∙ sym (
          map-append write_body (gzip.write b g.writer).0 (compressed bs (gzip.write b g.writer).1))

  -- What is written of these texts, from a writer that is not committed: `parts` are those that the
  -- gzip writer gets.
  abbrev pub Told : List Text → GzipResponseWriter S → List Text → Type 0
  Told bs g parts =
      (concat parts ≡ g.buf ++ concat bs)
      × (shrink gzip (map write_body bs) g ≡ (
          if reached g.min_length g.buf bs
          then commit true g ++ map write_body (compressed parts g.writer)
          else commit false g ++ (write_body (g.buf ++ concat bs) ∷ [])))

  -- A write that does not fill the buffer leaves the decision to the rest.
  reached-append :
      (m : ℕ) (buf b : Text) (bs : List Text)
      → leb m (length (buf ++ b)) ≡ false
      → reached m (buf ++ b) bs ≡ reached m buf (b ∷ bs)
  reached-append m buf b [] e = sym (ap (λ t. leb m (length (buf ++ t))) (append-nil b) ∙ e)
  reached-append m buf b (b2 ∷ bs) e =
      ap (λ t. leb m (length t)) (append_assoc buf b (concat (b2 ∷ bs)))

  reached_now :
      (m : ℕ) (buf b : Text) (bs : List Text)
      → leb m (length (buf ++ b)) ≡ true
      → reached m buf (b ∷ bs) ≡ true
  reached_now m buf b bs e =
      let longer = ap length (append_assoc buf b (concat bs)) in
      ground (arith, longer, length-append (buf ++ b) (concat bs))

  pub shrink_open :
      (bs : List Text) (g : GzipResponseWriter S)
      → (parts : List Text) × Told bs (record g { committed = false }) parts
  unfolding shrink on_op on_write compress_text flush
  shrink_open [] g = (
    (g.buf ++ []) ∷ [],
    (
      append-nil (g.buf ++ []),
      ap (λ t. commit false g ++ (write_body t ∷ [])) (sym (append-nil g.buf)),
    ),
  )
  shrink_open (b ∷ bs) g = elim (Bool-cases (leb g.min_length (length (g.buf ++ b)))) [
    | inl full ↦
        let buf : Text = g.buf ++ b in
        (
          buf ∷ bs,
          (
            append_assoc g.buf b (concat bs),
            rw (reached_now g.min_length g.buf b bs full, full)
                (ap (λ rest. (commit true g ++ map write_body (gzip.write buf g.writer).0) ++ rest)
                    (shrink_committed bs
                      (record g { buf = buf; writer = (gzip.write buf g.writer).1 }))
                  ∙ (append_assoc (commit true g) (map write_body (gzip.write buf g.writer).0)
                        (map write_body (compressed bs (gzip.write buf g.writer).1))
                      ∙ ap (◌++◌ (commit true g)) (
                          sym (
                            map-append write_body (gzip.write buf g.writer).0
                              (compressed bs (gzip.write buf g.writer).1))))),
          ),
        )
    | inr short ↦
        let (parts, (same, told)) = shrink_open bs (record g { buf = g.buf ++ b }) in
        (
          parts,
          (
            same ∙ append_assoc g.buf b (concat bs),
            rw (short, sym (reached-append g.min_length g.buf b bs short))
                (told ∙ rw (append_assoc g.buf b (concat bs)) refl),
          ),
        )
  ]
