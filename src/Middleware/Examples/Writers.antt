-- ===== src/Middleware/Examples/Writers.antt =====
-- The middlewares that change, cut off or note what a handler writes.
use cascade_proxy.Common.{
  ℕ, ◌+◌, ◌-◌, ◌≡◌, refl, ap, ◌∙◌, true, ◌&&◌, Option, none, some, List, [], ◌∷◌, ◌++◌, arith,
  append_assoc, append-nil, if◌then◌else◌, length, or_else, Text, ascii, concat, contains, member,
}
use cascade_proxy.Http.{
  Request, Handler, set_header, write_header, write_body, Clock, response, get, set, header_after,
}
use cascade_proxy.Middleware.Compress
use cascade_proxy.Middleware.Compress.{Gzip}
use cascade_proxy.Middleware.Compress.Body.{compressed, reached}
use cascade_proxy.Middleware.Compress.RoundTrip.{Delivered, answer, handle-Delivered}
use cascade_proxy.Middleware.Compress.Copied.{up_to, copied}
use cascade_proxy.Http.Canonical.{canonical}
use cascade_proxy.Common.{lookup, text_eq, has_prefix}
use cascade_proxy.Middleware.ResponseTransform
use cascade_proxy.Middleware.ResponseTransform.{transform, contains_substring}
use cascade_proxy.Middleware.ResponseTransform.Rewritten.{
  handle-response, last_status, bodies, applies,
}
use cascade_proxy.Middleware.RequestTransform.{replace_all}
use cascade_proxy.Middleware.RequestTransform
use cascade_proxy.Middleware.Timeout
use cascade_proxy.Middleware.Timeout.{
  Background, theirs, ours, with_timeout, recover, recover-response,
}
use cascade_proxy.Middleware.Timeout.Answers.{Overdue, with_timeout-response}
use cascade_proxy.Http.{WriteOp}
use cascade_proxy.Common.{◌⊎◌}
use cascade_proxy.Middleware.Recorder.{record_ops}
use cascade_proxy.Middleware.Timeout.Race.{both_done, first, second, Raced, raced, Raced-status}
use cascade_proxy.Middleware.Logged.{access_log, line_of, level_of}
use cascade_proxy.Middleware.Logged.Lines.{size, access_log-response}

abbrev request : Request
request = record {
  method = ascii "GET";
  scheme = [];
  url_host = [];
  path = ascii "/users";
  raw_query = [];
  host = ascii "front";
  header = (ascii "Accept-Encoding", ascii "gzip" ∷ []) ∷ [];
  remote_addr = ascii "10.0.0.1:80";
  request_uri = ascii "/users";
  body = none;
}

-- A status and a body in two pieces.
abbrev hello : Handler ℕ
hello r h w = (
  set_header (ascii "Content-Type") (ascii "text/plain")
      ∷ write_header 201
      ∷ write_body (ascii "hel")
      ∷ write_body (ascii "lo")
      ∷ [],
  w + 3,
)

-- A gzip writer that keeps all until it is closed, and puts a mark in front.
abbrev storing : Gzip Text
storing = record { reset = []; write = λ t s. ([], s ++ t); close = λ s. (31 ∷ s) ∷ [] }

unfoldable gunzip : Text → Option Text
gunzip [] = none
gunzip (c ∷ s) = some s

compressed-storing :
    (ts : List Text) (s : Text) → concat (compressed storing ts s) ≡ 31 ∷ (s ++ concat ts)
compressed-storing [] s = rw (append-nil s) refl
compressed-storing (t ∷ ts) s =
    compressed-storing ts (s ++ t) ∙ rw (append_assoc s t (concat ts)) refl

abbrev short : Compress.Config
short = record { min_length = 4 }

-- Of a body that is copied in three pieces, the first two.
abbrev copying : Handler ℕ
copying r h w = (
  set_header (ascii "Content-Type") (ascii "text/plain")
      ∷ write_header 201
      ∷ write_body (ascii "hel")
      ∷ write_body (ascii "lo")
      ∷ [],
  w + 3,
)

abbrev three : List Text
three = ascii "hel" ∷ ascii "lo" ∷ ascii "!" ∷ []

asks : contains (get (ascii "Accept-Encoding") request.header) (ascii "gzip") ≡ true
unfolding get lookup text_eq ascii canonical contains has_prefix
asks = refl

handle-Delivered_example :
    let asked = contains (get (ascii "Accept-Encoding") request.header) (ascii "gzip") in
    let sent = if true && asked then up_to 4 0 three else three in
    Delivered storing gunzip
      (asked && reached storing 4 [] sent)
      (response [] (answer (set_header (ascii "Content-Type") (ascii "text/plain") ∷ []) 201 sent))
      (response [] (Compress.handle storing short copying request [] 5).0)
    × ((Compress.handle storing short copying request [] 5).1 ≡ 8)
unfolding gunzip
handle-Delivered_example =
    handle-Delivered storing gunzip (λ ts. ap gunzip (compressed-storing ts [])) short copying
      request [] 5 (set_header (ascii "Content-Type") (ascii "text/plain") ∷ []) 201 three true
      (rw asks (unfold copied ascii in refl)) (tt, tt)

-- A pattern is put in front.
abbrev in_front : Text → Text → Text → Text
in_front pattern body new = new ++ body

abbrev marking : ResponseTransform.Config Text
marking = record {
  rules = record { pattern = ascii "h"; replacement = ascii "H" } ∷ [];
  content_types = ascii "text/" ∷ [];
}

handle-response_example :
    let end = header_after [] (hello request [] 5).0 in
    (response [] (ResponseTransform.handle in_front marking hello request [] 5).0 ≡ record {
      status = last_status 200 (hello request [] 5).0;
      header = if applies marking end then set (ascii "Content-Length") [] end else end;
      body =
          if applies marking end
          then transform in_front marking.rules (bodies (hello request [] 5).0)
          else bodies (hello request [] 5).0;
    })
    × ((ResponseTransform.handle in_front marking hello request [] 5).1 ≡ 8)
handle-response_example = handle-response in_front marking hello request [] 5 refl

-- The handler sends its status before the middleware answers, and its body among the calls of that.
abbrev late : Background ℕ
late r h w = (
  record {
    ops = write_header 201 ∷ write_body (ascii "hel") ∷ [];
    expired = true;
    turns = theirs ∷ ours ∷ theirs ∷ [];
  },
  w + 2,
)

with_timeout-response_example :
    if (late request [] 5).0.expired
    then Overdue []
        (late request [] 5).0
        (response [] (with_timeout Timeout.default_config (λ t. late) request [] 5).0)
    else response [] (with_timeout Timeout.default_config (λ t. late) request [] 5).0
      ≡ response [] (late request [] 5).0.ops
with_timeout-response_example =
    with_timeout-response Timeout.default_config (λ t. late) request [] 5
      ((λ e. omega arith), (tt, tt))

abbrev clock : Clock ℕ
clock = record { now = λ w. w; sleep = λ d w. w + d }

access_log-response_example :
    let (told, (log, w)) = access_log clock size (ascii "/healthz" ∷ []) hello request [] ([], 5) in
    let got = response [] told in
    log ≡ (
      if member request.path (ascii "/healthz" ∷ [])
      then []
      else line_of
          (level_of got.status)
          request
          (record { status_code = got.status; written = length got.body })
          (w - 5)
        ∷ [])
access_log-response_example =
    access_log-response clock size (ascii "/healthz" ∷ []) hello request [] [] 5 (λ ops. refl) tt

-- A request with a body in which two bytes become one, by a rule for texts.
abbrev joining : RequestTransform.Config
joining = record {
  rules = record { find = 1 ∷ 1 ∷ []; replace = 7 ∷ []; content_type = ascii "text/" } ∷ [];
}

abbrev posted : Request
posted = record request {
  header = (ascii "Content-Type", ascii "text/plain" ∷ []) ∷ [];
  body = some (1 ∷ 1 ∷ 1 ∷ 2 ∷ []);
}

-- It answers with the body of the request.
abbrev echo : Handler ℕ
echo r h w = (write_body (or_else r.body []) ∷ [], w + 1)

abbrev read_all : Text → Option Text
read_all b = some b

-- What `hello` writes behind its deadline falls between the headers of the timeout and its status.
abbrev mixed : List WriteOp
mixed =
    set_header (ascii "Content-Type") (ascii "text/plain; charset=utf-8")
    ∷ set_header (ascii "X-Content-Type-Options") (ascii "nosniff")
    ∷ write_header 201
    ∷ write_body (ascii "hel")
    ∷ write_header 504
    ∷ write_body (ascii "504 Gateway Timeout" ++ (10 ∷ []))
    ∷ []

hello-Raced :
    Raced (hello request [] 5).0 (set_header (ascii "Content-Type") (ascii "text/plain") ∷ mixed)
unfolding record_ops
hello-Raced =
    raced (set_header (ascii "Content-Type") (ascii "text/plain") ∷ [])
      (write_header 201 ∷ write_body (ascii "hel") ∷ []) (write_body (ascii "lo") ∷ []) mixed refl
      (second (second (first (first (second (second both_done))))))

Raced-status_example :
    let zs = set_header (ascii "Content-Type") (ascii "text/plain") ∷ mixed in
    ((response [] zs).status ≡ 504)
    ⊎ ((response [] zs).status ≡ (response [] (hello request [] 5).0).status)
Raced-status_example =
    Raced-status [] (hello request [] 5).0
      (set_header (ascii "Content-Type") (ascii "text/plain") ∷ mixed)
      (tt, ((λ e. absurd (ground arith)), (tt, (tt, tt)))) hello-Raced

-- Here it is the status of the handler.
mixed_status : (response [] mixed).status ≡ 201
unfolding response
mixed_status = refl
