-- ===== src/Proxy/Request/Headers.antt =====
-- What reaches the upstream of the header of a request.
use cascade_proxy.Common.{
  ◌≡◌, refl, List, [], ◌∷◌, ◌++◌, arith, if◌then◌else◌, append_assoc, append-nil, Text, ascii,
  text_eq, text_eq_iff, lookup,
}
use cascade_proxy.Http.{Header, at_key, Request, IsCanonical}
use cascade_proxy.Http.Canonical.{canonical}
use cascade_proxy.Http.Laws.{at_key-add_values, at_key-set}
use cascade_proxy.Proxy.Request.{
  is_hop_by_hop, copy_key, copy_headers, out_header, forwarded_for, forwarded_host,
}

for_canonical : canonical forwarded_for ≡ forwarded_for
unfolding canonical ascii
for_canonical = refl

host_canonical : canonical forwarded_host ≡ forwarded_host
unfolding canonical ascii
host_canonical = refl

at_key-copy_key :
    (dst : Header) (k : Text) (vs : List Text) (j : Text)
    → canonical k ≡ k
    → at_key j (copy_key dst k vs) ≡ (
        if is_hop_by_hop j
        then at_key j dst
        else if text_eq k j
        then at_key j dst ++ vs
        else at_key j dst)
unfolding copy_key
at_key-copy_key dst k vs j canon =
    let added = rw canon at (at_key-add_values k vs j dst) in ground (arith, text_eq_iff k j)

-- Copying adds to each key the values of the source, unless the key is hop-by-hop.
pub at_key-copy_headers :
    (dst src : Header) (j : Text)
    → IsCanonical src
    → at_key j (copy_headers dst src)
      ≡ (if is_hop_by_hop j then at_key j dst else at_key j dst ++ at_key j src)
unfolding copy_headers lookup
at_key-copy_headers dst [] j c = ground (arith, append-nil (at_key j dst))
at_key-copy_headers dst ((k, vs) ∷ src) j ((canon, canons), (missing, distinct)) =
    let ih = at_key-copy_headers (copy_key dst k vs) src j (canons, distinct) in
    let one = at_key-copy_key dst k vs j canon in
    rw (ih, one)
      (ground (
        arith,
        text_eq_iff k j,
        missing,
        append_assoc (at_key j dst) vs (at_key j src),
        append-nil (at_key j dst ++ vs),
        append-nil vs,
      ))

-- What the upstream is told of each key, where the keys of the request's header are canonical and
-- stand once: the address and the host of the client under the two keys that say so, whatever the
-- request held there, nothing under another hop-by-hop key, and under any other key the values of
-- the request in their order.
pub at_key-out_header :
    (r : Request) (j : Text)
    → IsCanonical r.header
    → at_key j (out_header r) ≡ (
        if text_eq forwarded_host j
        then r.host ∷ []
        else if text_eq forwarded_for j
        then r.remote_addr ∷ []
        else if is_hop_by_hop j
        then []
        else at_key j r.header)
unfolding out_header lookup
at_key-out_header r j c =
    rw (at_key-set forwarded_host r.host j _, at_key-set forwarded_for r.remote_addr j _)
      (rw (at_key-copy_headers [] r.header j c, host_canonical, for_canonical) (ground arith))
