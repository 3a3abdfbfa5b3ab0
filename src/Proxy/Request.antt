-- ===== src/Proxy/Request.antt =====
-- internal/proxy/request.go.
pub mod Joining
pub mod Headers
use cascade_proxy.Common.{
  ℕ, Bool, true, false, not, ◌&&◌, ◌||◌, Option, none, some, List, [], ◌∷◌, ◌++◌, Text, ascii,
  text_eq, any, ◌==◌, if◌then◌else◌, Result, ok, err,
}
use cascade_proxy.Http.{
  Header, set, add_values, header_ops, Request, WriteOp, write_header, write_body,
}

pub record Url : Type 0 where
  pub scheme : Text
  pub host : Text
  pub path : Text
  pub raw_query : Text

-- The reader of a request's body: unread, or read and closed by an earlier use.
pub data Body : Type 0 where
  unread : Text → Body
  spent : Body

-- The request that goes to the upstream.
pub record OutRequest : Type 0 where
  pub method : Text
  pub url : Url
  pub header : Header
  pub body : Body

-- The response of the upstream, read to its end.
pub record Upstream : Type 0 where
  pub status : ℕ
  pub header : Header
  pub body : Text

-- len(a) > 0 && a[len(a)-1] == '/'
unfoldable pub ends_in_slash : Text → Bool
ends_in_slash [] = false
ends_in_slash (c ∷ []) = c == b'/'
ends_in_slash (c ∷ d ∷ s) = ends_in_slash (d ∷ s)

-- len(b) > 0 && b[0] == '/'
unfoldable pub starts_with_slash : Text → Bool
starts_with_slash [] = false
starts_with_slash (c ∷ s) = c == b'/'

abbrev pub behind_first : Text → Text
behind_first [] = []
behind_first (c ∷ s) = s

abbrev pub is_empty : Text → Bool
is_empty [] = true
is_empty (_ ∷ _) = false

abbrev pub slash : Text
slash = b'/' ∷ []

unfoldable pub single_joining_slash : Text → Text → Text
unfolding ends_in_slash starts_with_slash
single_joining_slash a b =
    if ends_in_slash a && starts_with_slash b
    then a ++ behind_first b
    else if not (ends_in_slash a) && not (starts_with_slash b)
    then if is_empty b then a else a ++ (slash ++ b)
    else a ++ b

abbrev pub hop_by_hop : List Text
hop_by_hop =
    ascii "Connection"
    ∷ ascii "Keep-Alive"
    ∷ ascii "Proxy-Authenticate"
    ∷ ascii "Proxy-Authorization"
    ∷ ascii "Te"
    ∷ ascii "Trailers"
    ∷ ascii "Transfer-Encoding"
    ∷ ascii "Upgrade"
    ∷ []

-- hopByHop[k]
unfoldable pub is_hop_by_hop : Text → Bool
is_hop_by_hop k = any (text_eq k) hop_by_hop

-- one round of the outer loop
unfoldable pub copy_key : Header → Text → List Text → Header
unfolding add_values
copy_key dst k vs = if is_hop_by_hop k then dst else add_values k vs dst

unfoldable pub copy_headers : Header → Header → Header
copy_headers dst [] = dst
copy_headers dst ((k, vs) ∷ src) = copy_headers (copy_key dst k vs) src

abbrev pub forwarded_for : Text
forwarded_for = ascii "X-Forwarded-For"

abbrev pub forwarded_host : Text
forwarded_host = ascii "X-Forwarded-Host"

unfoldable pub out_url : Request → Url → Url
unfolding single_joining_slash
out_url r target = record target {
  path = single_joining_slash target.path r.path;
  raw_query = r.raw_query;
}

unfoldable pub out_header : Request → Header
unfolding copy_headers
out_header r =
    set forwarded_host r.host (set forwarded_for r.remote_addr (copy_headers [] r.header))

-- `refused method url` is the error of http.NewRequestWithContext, if it refuses to make a request
-- from these; a request that it makes has that method and URL and an empty header.
unfoldable pub build_request :
    {E : Type 0} → (Text → Url → Option E) → Request → Body → Url → Result E OutRequest
unfolding out_url out_header
build_request refused r body target =
    let url = out_url r target in
    elim (refused r.method url) [
      | some e ↦ err e
      | none ↦ ok (record { method = r.method; url = url; header = out_header r; body = body })
    ]

unfoldable pub copy_response : Upstream → List WriteOp
unfolding header_ops
copy_response resp =
    header_ops resp.header ++ (write_header resp.status ∷ write_body resp.body ∷ [])
