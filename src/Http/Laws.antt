-- ===== src/Http/Laws.antt =====
-- Reading a header after a change.
use cascade_proxy.Common.{
  ◌≡◌, refl, sym, ap, List, [], ◌∷◌, ◌++◌, arith, append_assoc, append-nil, Text, text_eq,
  text_eq_iff, lookup-insert, lookup-erase, if◌then◌else◌, lookup,
}
use cascade_proxy.Http.{
  Header, at_key, values, set, add, del, add_values, add_ops, header_ops, header_after, IsCanonical,
  WriteOp, set_header, add_header, del_header, write_header, write_body, Client, start, apply,
  apply_all, finish, response,
}
use cascade_proxy.Http.Canonical.{canonical}

pub at_key-set :
    (key value j : Text) (h : Header)
    → at_key j (set key value h) ≡ (if text_eq (canonical key) j then value ∷ [] else at_key j h)
unfolding set
at_key-set key value j h = rw (lookup-insert (canonical key) j (value ∷ []) h) (ground arith)

pub at_key-add :
    (key value j : Text) (h : Header)
    → at_key j (add key value h)
      ≡ (if text_eq (canonical key) j then at_key j h ++ (value ∷ []) else at_key j h)
unfolding add values
at_key-add key value j h =
    rw (lookup-insert (canonical key) j (at_key (canonical key) h ++ (value ∷ [])) h)
      (ground (arith, text_eq_iff (canonical key) j))

pub at_key-del :
    (key j : Text) (h : Header)
    → at_key j (del key h) ≡ (if text_eq (canonical key) j then [] else at_key j h)
unfolding del
at_key-del key j h = rw (lookup-erase (canonical key) j h) (ground arith)

pub at_key-add_values :
    (k : Text) (vs : List Text) (j : Text) (h : Header)
    → at_key j (add_values k vs h)
      ≡ (if text_eq (canonical k) j then at_key j h ++ vs else at_key j h)
unfolding add_values
at_key-add_values k [] j h = ground (arith, append-nil (at_key j h))
at_key-add_values k (v ∷ vs) j h =
    rw (at_key-add_values k vs j (add k v h), at_key-add k v j h)
      (ground (arith, append_assoc (at_key j h) (v ∷ []) vs))

pub header_after-append :
    (h : Header) (xs ys : List WriteOp)
    → header_after h (xs ++ ys) ≡ header_after (header_after h xs) ys
unfolding header_after
header_after-append h [] ys = refl
header_after-append h (set_header k v ∷ xs) ys = header_after-append (set k v h) xs ys
header_after-append h (add_header k v ∷ xs) ys = header_after-append (add k v h) xs ys
header_after-append h (del_header k ∷ xs) ys = header_after-append (del k h) xs ys
header_after-append h (write_header _ ∷ xs) ys = header_after-append h xs ys
header_after-append h (write_body _ ∷ xs) ys = header_after-append h xs ys

header_after-add_ops :
    (h : Header) (k : Text) (vs : List Text) → header_after h (add_ops k vs) ≡ add_values k vs h
unfolding header_after add_ops add_values
header_after-add_ops h k [] = refl
header_after-add_ops h k (v ∷ vs) = header_after-add_ops (add k v h) k vs

-- Adding all the values of a header with canonical keys puts them behind those that are there.
pub at_key-header_ops :
    (h src : Header) (j : Text)
    → IsCanonical src
    → at_key j (header_after h (header_ops src)) ≡ at_key j h ++ at_key j src
unfolding header_after header_ops lookup
at_key-header_ops h [] j c = sym (append-nil (at_key j h))
at_key-header_ops h ((k, vs) ∷ src) j ((canon, canons), (missing, distinct)) =
    rw
      (
        header_after-append h (add_ops k vs) (header_ops src),
        header_after-add_ops h k vs,
        at_key-header_ops (add_values k vs h) src j (canons, distinct),
        at_key-add_values k vs j h,
        canon,
      )
      (ground (
        arith,
        text_eq_iff k j,
        missing,
        append_assoc (at_key j h) vs (at_key j src),
        append-nil (at_key j h ++ vs),
      ))

apply_all-add_ops :
    (c : Client) (k : Text) (vs : List Text) (ops : List WriteOp)
    → apply_all c (add_ops k vs ++ ops)
      ≡ apply_all (record c { header = add_values k vs c.header }) ops
unfolding apply_all apply add_ops add_values
apply_all-add_ops c k [] ops = refl
apply_all-add_ops c k (v ∷ vs) ops =
    apply_all-add_ops (record c { header = add k v c.header }) k vs ops

apply_all-header_ops :
    (c : Client) (src : Header) (ops : List WriteOp)
    → apply_all c (header_ops src ++ ops)
      ≡ apply_all (record c { header = header_after c.header (header_ops src) }) ops
unfolding header_ops header_after
apply_all-header_ops c [] ops = refl
apply_all-header_ops c ((k, vs) ∷ src) ops = rw (
  append_assoc (add_ops k vs) (header_ops src) ops,
  apply_all-add_ops c k vs (header_ops src ++ ops),
  apply_all-header_ops (record c { header = add_values k vs c.header }) src ops,
  header_after-append c.header (add_ops k vs) (header_ops src),
  header_after-add_ops c.header k vs,
)

-- An answer that copies a header and then sends a status and a body.
pub response-header_ops :
    (h src : Header) (ops : List WriteOp)
    → response h (header_ops src ++ ops) ≡ response (header_after h (header_ops src)) ops
unfolding response
response-header_ops h src ops = ap finish (apply_all-header_ops (start h) src ops)
