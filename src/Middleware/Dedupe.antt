-- ===== src/Middleware/Dedupe.antt =====
-- internal/middleware/dedupe.go. The recorder is an interface; the hash, as hexadecimal digits, and
-- the text of a URL are parameters. The mutex makes each look at the map atomic, and each writing.
pub mod Replay
pub mod Concurrent
use cascade_proxy.Common.{
  ℕ, ◌+◌, Bool, true, false, not, Option, none, some, List, [], ◌∷◌, ◌++◌, ltb, if◌then◌else◌, Text,
  ascii, text_eq, member, Dict, lookup, insert,
}
use cascade_proxy.Http.{
  Header, Handler, Request, WriteOp, Clock, set_header, write_header, write_body, header_ops, get,
}
use cascade_proxy.Middleware.Recording.{Recording}

pub record Config : Type 0 where
  pub ttl : ℕ
  pub methods : List Text

abbrev pub default_config : Config
default_config = record {
  ttl = 500_000_000;
  methods = ascii "POST" ∷ ascii "PUT" ∷ ascii "PATCH" ∷ [];
}

pub record Entry : Type 0 where
  pub expiry : ℕ
  pub status : ℕ
  pub body : Text
  pub headers : Header

abbrev pub Seen : Type 0
Seen = Dict Entry

-- the answer of an entry that is found
unfoldable pub replay : Entry → List WriteOp
replay e =
    header_ops e.headers
    ++ (set_header (ascii "X-Dedupe-Hit") (ascii "true")
        ∷ write_header e.status
        ∷ write_body e.body
        ∷ [])

-- the entry if there is one that has not expired
abbrev pub live : ℕ → Option Entry → Option Entry
live now none = none
live now (some e) = if ltb now e.expiry then some e else none

-- what is kept of a request that was served
abbrev pub entry_of : Recording → Config → ℕ → List WriteOp → Entry
entry_of rec cfg now ops = record {
  expiry = now + cfg.ttl;
  status = rec.status ops;
  body = rec.body ops;
  headers = rec.header ops;
}

module _ (hash : Text → Text) (url : Request → Text) where
  unfoldable pub fingerprint : Request → Text
  fingerprint r =
      let id = get (ascii "Idempotency-Key") r.header in
      hash ((r.method ++ (b':' ∷ url r)) ++ (if not (text_eq id []) then b':' ∷ id else []))

  module _ {W : Type 0} (clock : Clock W) (rec : Recording) (cfg : Config) (next : Handler W) where
    -- the request is served, and remembered
    unfoldable pub serve : Handler (Seen × W)
    unfolding fingerprint
    serve r h (seen, w) =
        let (ops, w') = next r h w in
        (rec.passed ops, (insert (fingerprint r) (entry_of rec cfg (clock.now w') ops) seen, w'))

    -- The handler that NewDedupeMiddleware makes.
    unfoldable pub handle : Handler (Seen × W)
    unfolding serve replay
    handle r h (seen, w) =
        if not (member r.method cfg.methods)
        then (let (ops, w') = next r h w in (ops, (seen, w')))
        else elim (live (clock.now w) (lookup (fingerprint r) seen)) [
          | some e ↦ (replay e, (seen, w))
          | none ↦ serve r h (seen, w)
        ]
