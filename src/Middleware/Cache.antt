-- ===== src/Middleware/Cache.antt =====
-- internal/middleware/cache.go.
pub mod Store
pub mod Hits
pub mod Ok
use cascade_proxy.Common.{
  ℕ, ◌+◌, ◌%◌, Bool, true, false, Option, none, some, List, [], ◌∷◌, ◌++◌, leb, ltb, ◌==◌,
  if◌then◌else◌, length, get_elem?, Text, ascii, text_eq, Dict, lookup, insert, erase,
}
use cascade_proxy.Http.{
  Header, Request, Handler, Clock, WriteOp, set_header, write_header, write_body, header_ops,
  header_after,
}
use cascade_proxy.Middleware.Recorder.{record_ops, status, body}
use cascade_proxy.Middleware.Recorder

pub record Config : Type 0 where
  pub ttl : ℕ
  pub max_entries : ℕ

abbrev pub default_config : Config
default_config = record { ttl = 30_000_000_000; max_entries = 256 }

pub record Entry : Type 0 where
  pub header : Header
  pub body : Text
  pub status : ℕ
  pub exp : ℕ

pub record ResponseCache : Type 0 where
  pub entries : Dict Entry
  pub cfg : Config

unfoldable pub new : Config → ResponseCache
new cfg = record { entries = []; cfg = cfg }

get_from : ℕ → Text → ResponseCache → Option Entry → Option Entry × ResponseCache
get_from now key c none = (none, record c { entries = erase key c.entries })
get_from now key c (some e) =
    if ltb e.exp now then (none, record c { entries = erase key c.entries }) else (some e, c)

-- A miss deletes what stands under the key.
unfoldable pub get : ℕ → Text → ResponseCache → Option Entry × ResponseCache
unfolding get_from
get now key c = get_from now key c (lookup key c.entries)

-- The first round of `for k := range c.entries`: `range` starts at an entry of its choice, here the
-- one at `choice` modulo the number of entries.
evict_at : Option (Text × Entry) → Dict Entry → Dict Entry
evict_at none m = m
evict_at (some (k, _)) m = erase k m

unfoldable pub evict_one : ℕ → Dict Entry → Dict Entry
unfolding evict_at
evict_one choice m = evict_at (get_elem? m (choice % length m)) m

unfoldable pub set : ℕ → ℕ → Text → Entry → ResponseCache → ResponseCache
set now choice key e c =
    let room =
      if leb c.cfg.max_entries (length c.entries) then evict_one choice c.entries else c.entries in
    record c { entries = insert key (record e { exp = now + c.cfg.ttl }) room }

abbrev pub method_get : Text
method_get = ascii "GET"

abbrev pub x_cache : Text
x_cache = ascii "X-Cache"

-- the answer from an entry
unfoldable pub hit_ops : Entry → List WriteOp
hit_ops e =
    header_ops e.header
    ++ (set_header x_cache (ascii "HIT") ∷ write_header e.status ∷ write_body e.body ∷ [])

-- `request_uri` is the method RequestURI of the URL, and `choice` where `range` starts in a world.
module _ {W : Type 0} (clock : Clock W) (request_uri : Request → Text) (choice : W → ℕ) where
  store : Text → Header → List WriteOp → ResponseCache → W → ResponseCache
  store key h ops c w =
      let (rec, told) = record_ops ops Recorder.new in
      if status rec == 200
      then set (clock.now w) (choice w) key
          (record { header = header_after h told; body = body rec; status = status rec; exp = 0 }) c
      else c

  -- the rest of the handler on a miss
  unfoldable pub miss : Handler W → Text → Handler (ResponseCache × W)
  unfolding store
  miss next key r h (c, w) =
      let (ops, w') = next r h w in ((record_ops ops Recorder.new).1, (store key h ops c w', w'))

  unfoldable pub answer :
      Handler W
      → Text
      → Option Entry × ResponseCache
      → Request
      → Header
      → W
      → List WriteOp × (ResponseCache × W)
  unfolding miss hit_ops
  answer next key (some e, c) r h w = (hit_ops e, (c, w))
  answer next key (none, c) r h w = miss next key r h (c, w)

  -- The handler that NewCacheMiddleware makes.
  unfoldable pub handle : Handler W → Handler (ResponseCache × W)
  unfolding answer
  handle next r h (c, w) =
      if text_eq r.method method_get
      then answer next (request_uri r) (get (clock.now w) (request_uri r) c) r h w
      else (let (ops, w') = next r h w in (ops, (c, w')))
