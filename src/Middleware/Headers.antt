-- ===== src/Middleware/Headers.antt =====
-- internal/middleware/headers.go. The function `canonicalKey` is never called and is left out.
pub mod Sent
use cascade_proxy.Common.{ℕ, Bool, true, false, List, [], ◌∷◌, ◌++◌, if◌then◌else◌, Text, Dict}
use cascade_proxy.Http.{
  Header, Handler, WriteOp, set_header, add_header, del_header, write_header, write_body, Request,
  set, del,
}

-- The maps `RequestHeaders` and `ResponseHeaders` are in the order in which `range` visits them.
pub record Config : Type 0 where
  pub request_headers : Dict Text
  pub response_headers : Dict Text
  pub remove_request_headers : List Text
  pub remove_response_headers : List Text

abbrev pub default_config : Config
default_config = record {
  request_headers = [];
  response_headers = [];
  remove_request_headers = [];
  remove_response_headers = [];
}

-- for _, key := range keys { h.Del(key) }
unfoldable pub del_all : List Text → Header → Header
del_all [] h = h
del_all (k ∷ ks) h = del_all ks (del k h)

-- for key, val := range m { h.Set(key, val) }
unfoldable pub set_all : Dict Text → Header → Header
set_all [] h = h
set_all ((k, v) ∷ m) h = set_all m (set k v h)

-- the same, on the header of the response
unfoldable pub del_ops : List Text → List WriteOp
del_ops [] = []
del_ops (k ∷ ks) = del_header k ∷ del_ops ks

unfoldable pub set_ops : Dict Text → List WriteOp
set_ops [] = []
set_ops ((k, v) ∷ m) = set_header k v ∷ set_ops m

-- applyHeaders
unfoldable pub apply_headers : Config → List WriteOp
unfolding del_ops set_ops
apply_headers cfg = del_ops cfg.remove_response_headers ++ set_ops cfg.response_headers

abbrev pub unless : Bool → List WriteOp → List WriteOp
unless written ops = if written then [] else ops

-- What the wrapped writer is told of a handler's calls; `written` is the field `headersWritten`.
unfoldable pub intercept : Config → Bool → List WriteOp → List WriteOp
unfolding apply_headers
intercept cfg written [] = []
intercept cfg written (set_header k v ∷ ops) = set_header k v ∷ intercept cfg written ops
intercept cfg written (add_header k v ∷ ops) = add_header k v ∷ intercept cfg written ops
intercept cfg written (del_header k ∷ ops) = del_header k ∷ intercept cfg written ops
intercept cfg written (write_header code ∷ ops) =
    unless written (apply_headers cfg) ++ (write_header code ∷ intercept cfg true ops)
intercept cfg written (write_body b ∷ ops) =
    unless written (apply_headers cfg) ++ (write_body b ∷ intercept cfg true ops)

-- The handler that NewHeadersMiddleware makes.
unfoldable pub handle : {W : Type 0} → Config → Handler W → Handler W
unfolding intercept set_all del_all
handle cfg next r h w =
    let header = set_all cfg.request_headers (del_all cfg.remove_request_headers r.header) in
    let (ops, w') = next (record r { header = header }) h w in (intercept cfg false ops, w')
