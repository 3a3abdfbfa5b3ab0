-- ===== src/Middleware/Compress.antt =====
-- internal/middleware/compress.go. The gzip writer of the library is a parameter: its state `S`,
-- and what it writes to the writer below it on each call. The pool of such writers is left out:
-- each is reset before it is used.
pub mod Body
pub mod Copied
pub mod RoundTrip
use cascade_proxy.Common.{
  ℕ, Bool, true, false, not, Option, none, some, List, [], ◌∷◌, ◌++◌, map, leb, ◌==◌, if◌then◌else◌,
  length, Text, ascii, contains,
}
use cascade_proxy.Http.{
  Header, Handler, Request, WriteOp, set_header, add_header, del_header, write_header, write_body,
  get,
}

-- The level is the library's.
pub record Config : Type 0 where
  pub min_length : ℕ

abbrev pub default_config : Config
default_config = record { min_length = 1024 }

-- gzip.Writer: after Reset, Write and Close.
pub record Gzip (S : Type 0) : Type 0 where
  pub reset : S
  pub write : Text → S → List Text × S
  pub close : S → List Text

-- The field `writer` is never nil.
pub record GzipResponseWriter (S : Type 0) : Type 0 where
  pub writer : S
  pub status : ℕ
  pub min_length : ℕ
  pub buf : Text
  pub committed : Bool

abbrev pub content_encoding : Text
content_encoding = ascii "Content-Encoding"

abbrev pub content_length : Text
content_length = ascii "Content-Length"

abbrev pub start_gzip : List WriteOp
start_gzip = set_header content_encoding (ascii "gzip") ∷ del_header content_length ∷ []

-- the status that was kept back
abbrev pub held_status : ℕ → List WriteOp
held_status status = if status == 0 then [] else write_header status ∷ []

module _ {S : Type 0} where
  -- `commit`: what the writer below is told
  unfoldable pub commit : Bool → GzipResponseWriter S → List WriteOp
  commit compress g = (if compress then start_gzip else []) ++ held_status g.status

  module _ (gzip : Gzip S) where
    -- g.writer.Write(b)
    unfoldable pub compress_text : Text → GzipResponseWriter S → GzipResponseWriter S × List WriteOp
    compress_text b g =
        let (out, s) = gzip.write b g.writer in (record g { writer = s }, map write_body out)

    -- What `Write` returns where no writer fails: `gzip.Writer` returns the length of what it is
    -- given, which is the whole buffer when it is full.
    unfoldable pub write_result : Text → GzipResponseWriter S → ℕ
    write_result b g =
        if g.committed
        then length b
        else (let buf = g.buf ++ b in
            if leb g.min_length (length buf) then length buf else length b)

    -- What `Write` does.
    unfoldable pub on_write : Text → GzipResponseWriter S → GzipResponseWriter S × List WriteOp
    unfolding commit compress_text
    on_write b g =
        if g.committed
        then compress_text b g
        else (let g' = record g { buf = g.buf ++ b } in
            if leb g.min_length (length g'.buf)
            then (let (g'', told) = compress_text g'.buf (record g' { committed = true }) in
                (g'', commit true g ++ told))
            else (g', []))

    unfoldable pub on_op : WriteOp → GzipResponseWriter S → GzipResponseWriter S × List WriteOp
    unfolding on_write
    on_op (set_header k v) g = (g, set_header k v ∷ [])
    on_op (add_header k v) g = (g, add_header k v ∷ [])
    on_op (del_header k) g = (g, del_header k ∷ [])
    on_op (write_header status) g = (record g { status = status }, [])
    on_op (write_body b) g = on_write b g

    unfoldable pub flush : GzipResponseWriter S → List WriteOp
    unfolding commit
    flush g =
        if g.committed
        then map write_body (gzip.close g.writer)
        else commit false g ++ (write_body g.buf ∷ [])

    -- What the writer below is told of a handler's calls, and of the flush behind them.
    unfoldable pub shrink : List WriteOp → GzipResponseWriter S → List WriteOp
    unfolding on_op flush
    shrink [] g = flush g
    shrink (op ∷ ops) g = let (g', told) = on_op op g in told ++ shrink ops g'

    abbrev pub new : Config → GzipResponseWriter S
    new cfg = record {
      writer = gzip.reset;
      status = 0;
      min_length = cfg.min_length;
      buf = [];
      committed = false;
    }

    -- The handler that NewCompressMiddleware makes.
    unfoldable pub handle : {W : Type 0} → Config → Handler W → Handler W
    unfolding shrink
    handle cfg next r h w =
        let (ops, w') = next r h w in
        if not (contains (get (ascii "Accept-Encoding") r.header) (ascii "gzip"))
        then (ops, w')
        else (shrink ops (new cfg), w')
