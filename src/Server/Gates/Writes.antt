-- ===== src/Server/Gates/Writes.antt =====
-- Calls that write no status 0, and the changes of headers before them.
use cascade_proxy.Common.{◌≡◌, ◌≢◌, ap, ◌∙◌, List, [], ◌∷◌, ◌++◌, Text, All}
use cascade_proxy.Http.{
  Header, WriteOp, response, header_after, write_header, add_ops, header_ops, start, finish,
  apply_all, set_header, add_header, del_header, write_body,
}
use cascade_proxy.Http.Heads.{IsHeaderOp, apply-heads}
use cascade_proxy.Middleware.Cache.{Entry, hit_ops}
use cascade_proxy.Middleware.Recorder.Laws.{IsRealOp, apply_all-append}

pub append-IsRealOp :
    (xs ys : List WriteOp) → All IsRealOp xs → All IsRealOp ys → All IsRealOp (xs ++ ys)
append-IsRealOp [] ys real reals = reals
append-IsRealOp (x ∷ xs) ys (one, real) reals = (one, append-IsRealOp xs ys real reals)

add_ops-IsRealOp : (k : Text) (vs : List Text) → All IsRealOp (add_ops k vs)
unfolding add_ops
add_ops-IsRealOp k [] = tt
add_ops-IsRealOp k (v ∷ vs) = (tt, add_ops-IsRealOp k vs)

header_ops-IsRealOp : (h : Header) → All IsRealOp (header_ops h)
unfolding header_ops
header_ops-IsRealOp [] = tt
header_ops-IsRealOp ((k, vs) ∷ h) =
    append-IsRealOp (add_ops k vs) (header_ops h) (add_ops-IsRealOp k vs) (header_ops-IsRealOp h)

pub hit_ops-IsRealOp : (e : Entry) → e.status ≢ 0 → All IsRealOp (hit_ops e)
unfolding hit_ops
hit_ops-IsRealOp e some_ =
    append-IsRealOp (header_ops e.header) _ (header_ops-IsRealOp e.header) (tt, (some_, (tt, tt)))

-- Changes of the header come before what follows them.
pub response-heads :
    (h : Header) (heads ops : List WriteOp)
    → All IsHeaderOp heads
    → response h (heads ++ ops) ≡ response (header_after h heads) ops
unfolding response
response-heads h heads ops only =
    ap finish
      (apply_all-append (start h) heads ops ∙ ap (λ c. apply_all c ops) (apply-heads heads h only))

pub heads-IsRealOp : (heads : List WriteOp) → All IsHeaderOp heads → All IsRealOp heads
heads-IsRealOp [] only = tt
heads-IsRealOp (set_header k v ∷ heads) (_, only) = (tt, heads-IsRealOp heads only)
heads-IsRealOp (add_header k v ∷ heads) (_, only) = (tt, heads-IsRealOp heads only)
heads-IsRealOp (del_header k ∷ heads) (_, only) = (tt, heads-IsRealOp heads only)
heads-IsRealOp (write_header s ∷ heads) (bad, only) = elim bad [ ]
heads-IsRealOp (write_body b ∷ heads) (bad, only) = elim bad [ ]
