-- ===== src/Http/Heads.antt =====
-- Handlers that change headers, and handlers that only write bodies.
use cascade_proxy.Common.{
  ◌≡◌, refl, ◌∙◌, List, [], ◌∷◌, ◌++◌, map, append_assoc, append-nil, Option-cases, inl, inr, Text,
  concat, All,
}
use cascade_proxy.Http.{
  Header, WriteOp, set_header, add_header, del_header, write_header, write_body, set, add, del,
  header_after, Client, Response, apply, apply_all, start, finish, head_of,
}

abbrev pub IsHeaderOp : WriteOp → Type 0
IsHeaderOp (write_header status) = ⊥
IsHeaderOp (write_body b) = ⊥
IsHeaderOp _ = Unit

-- The answer of a client, on which these bodies are written.
abbrev pub bodies_of : Client → List Text → Response
bodies_of c bs =
    let (status, header) = head_of c.sent c.header in
    record { status = status; header = header; body = c.body ++ concat bs }

-- What a client gets when bodies are all that is left to write.
pub finish-bodies :
    (c : Client) (bs : List Text) → finish (apply_all c (map write_body bs)) ≡ bodies_of c bs
unfolding apply_all apply
finish-bodies c [] = rw (append-nil c.body) refl
finish-bodies c (b ∷ bs) = elim (Option-cases c.sent) [
  | inl e ↦
      finish-bodies (apply c (write_body b)) bs ∙ rw (e, append_assoc c.body b (concat bs)) refl
  | inr (s, e) ↦
      finish-bodies (apply c (write_body b)) bs ∙ rw (e, append_assoc c.body b (concat bs)) refl
]

pub apply-heads :
    (heads : List WriteOp) (h : Header)
    → All IsHeaderOp heads
    → apply_all (start h) heads ≡ start (header_after h heads)
unfolding apply_all apply header_after
apply-heads [] h only = refl
apply-heads (set_header k v ∷ heads) h (_, only) = apply-heads heads (set k v h) only
apply-heads (add_header k v ∷ heads) h (_, only) = apply-heads heads (add k v h) only
apply-heads (del_header k ∷ heads) h (_, only) = apply-heads heads (del k h) only
apply-heads (write_header s ∷ heads) h (bad, only) = elim bad [ ]
apply-heads (write_body b ∷ heads) h (bad, only) = elim bad [ ]
