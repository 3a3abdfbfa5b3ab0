-- ===== src/Http.antt =====
-- What the proxy uses of the package `net/http`: headers, requests, and the writing of responses. A
-- handler is a function that returns what it does to its `http.ResponseWriter`, in order, from the
-- request and what `w.Header()` holds before; a writer that wraps another is a function on such
-- lists. `W` is the rest of the world, which the handler acts on: upstreams, clocks, the state of
-- the middlewares.
pub mod Laws
pub mod Heads
pub mod Errors
pub mod Canonical
use cascade_proxy.Common.{
  ℕ, Option, none, some, List, [], ◌∷◌, ◌++◌, Text, ascii, Dict, lookup, insert, erase, or_else,
  ◌≡◌, All, Distinct,
}
use Canonical.{canonical}

-- http.Header: a key stands in its canonical form, with a list of values.
abbrev pub Header : Type 0
Header = Dict (List Text)

abbrev pub first : List Text → Text
first [] = []
first (v ∷ _) = v

-- The values under a key that is in its canonical form.
abbrev pub at_key : Text → Header → List Text
at_key key h = or_else (lookup key h) []

-- h.Values(key)
unfoldable pub values : Text → Header → List Text
values key h = at_key (canonical key) h

-- h.Get(key): the empty text where the key is missing
unfoldable pub get : Text → Header → Text
unfolding values
get key h = first (values key h)

-- h.Set(key, value)
unfoldable pub set : Text → Text → Header → Header
set key value h = insert (canonical key) (value ∷ []) h

-- h.Add(key, value)
unfoldable pub add : Text → Text → Header → Header
unfolding values
add key value h = insert (canonical key) (values key h ++ (value ∷ [])) h

-- h.Del(key)
unfoldable pub del : Text → Header → Header
del key h = erase (canonical key) h

-- for _, v := range vs { h.Add(k, v) }
unfoldable pub add_values : Text → List Text → Header → Header
add_values k [] dst = dst
add_values k (v ∷ vs) dst = add_values k vs (add k v dst)

-- Keys are canonical and stand once, as the server and `Set`, `Add` and `Del` leave them.
abbrev pub IsCanonical : Header → Type 0
IsCanonical h = All (λ e. canonical e.0 ≡ e.0) h × Distinct h

-- The fields of `http.Request` and of its URL that the proxy reads. A body that is `none` is nil.
pub record Request : Type 0 where
  pub method : Text
  pub scheme : Text
  pub url_host : Text
  pub path : Text
  pub raw_query : Text
  pub host : Text
  pub header : Header
  pub remote_addr : Text
  pub request_uri : Text
  pub body : Option Text

-- One call on a `http.ResponseWriter`. A status is a final one, 200 or more.
pub data WriteOp : Type 0 where
  set_header add_header : Text → Text → WriteOp
  del_header : Text → WriteOp
  write_header : ℕ → WriteOp
  write_body : Text → WriteOp

-- for k, vv := range h { for _, v := range vv { w.Header().Add(k, v) } }
unfoldable pub add_ops : Text → List Text → List WriteOp
add_ops k [] = []
add_ops k (v ∷ vs) = add_header k v ∷ add_ops k vs

unfoldable pub header_ops : Header → List WriteOp
unfolding add_ops
header_ops [] = []
header_ops ((k, vs) ∷ h) = add_ops k vs ++ header_ops h

-- `w.Header()` after these calls, from what it was before.
unfoldable pub header_after : Header → List WriteOp → Header
header_after h [] = h
header_after h (set_header k v ∷ ops) = header_after (set k v h) ops
header_after h (add_header k v ∷ ops) = header_after (add k v h) ops
header_after h (del_header k ∷ ops) = header_after (del k h) ops
header_after h (write_header _ ∷ ops) = header_after h ops
header_after h (write_body _ ∷ ops) = header_after h ops

-- The clock of the world, and `time.Sleep`.
pub record Clock (W : Type 0) : Type 0 where
  pub now : W → ℕ
  pub sleep : ℕ → W → W

abbrev pub Handler : Type 0 → Type 0
Handler W = Request → Header → W → List WriteOp × W

-- The server's own writer: the header map that handlers change, the status and the header that were
-- sent, if they were, and the body so far.
pub record Client : Type 0 where
  pub header : Header
  pub sent : Option (ℕ × Header)
  pub body : Text

-- Only the first status is sent, with the header as it stands then.
abbrev pub send : ℕ → Client → Client
send code c = elim c.sent [ none ↦ record c { sent = some (code, c.header) } | some _ ↦ c ]

unfoldable pub apply : Client → WriteOp → Client
apply c (set_header key value) = record c { header = set key value c.header }
apply c (add_header key value) = record c { header = add key value c.header }
apply c (del_header key) = record c { header = del key c.header }
apply c (write_header code) = send code c
apply c (write_body text) = let c' = send 200 c in record c' { body = c'.body ++ text }

unfoldable pub apply_all : Client → List WriteOp → Client
apply_all c [] = c
apply_all c (op ∷ ops) = apply_all (apply c op) ops

-- What the client receives: of a body, all that is written. That none is sent in answer to HEAD,
-- and with the statuses 204 and 304, is left out.
pub record Response : Type 0 where
  pub status : ℕ
  pub header : Header
  pub body : Text

abbrev pub head_of : Option (ℕ × Header) → Header → ℕ × Header
head_of none h = (200, h)
head_of (some sent) h = sent

-- The handler is done: a status that was never sent is 200.
abbrev pub finish : Client → Response
finish c =
    let (status, header) = head_of c.sent c.header in
    record { status = status; header = header; body = c.body }

abbrev pub start : Header → Client
start h = record { header = h; sent = none; body = [] }

-- What the client receives of these calls, on a writer whose header map holds `h` before.
unfoldable pub response : Header → List WriteOp → Response
unfolding apply_all apply
response h ops = finish (apply_all (start h) ops)

abbrev pub content_type : Text
content_type = ascii "Content-Type"

-- http.Error(w, message, code)
abbrev pub http_error : Text → ℕ → List WriteOp
http_error message code =
    set_header content_type (ascii "text/plain; charset=utf-8")
    ∷ set_header (ascii "X-Content-Type-Options") (ascii "nosniff")
    ∷ write_header code
    ∷ write_body (message ++ (10 ∷ []))
    ∷ []
