-- ===== src/Middleware/Examples/Repeats.antt =====
-- The middlewares that keep a state or ask the next handler again.
use cascade_proxy.Common.{
  ℕ, ◌+◌, ◌≡◌, refl, true, false, none, some, List, [], ◌∷◌, ◌++◌, arith, length, min, ltb, member,
  Text, ascii, text_eq, lookup, insert, ◌≤◌, if◌then◌else◌,
}
use cascade_proxy.Http.{
  Request, Header, Handler, set_header, write_header, write_body, Clock, response, set,
  header_after, header_ops,
}
use cascade_proxy.RateLimiter
use cascade_proxy.RateLimiter.Keys.{grants}
use cascade_proxy.Middleware.Recording.{Recording}
use cascade_proxy.Middleware.Retry
use cascade_proxy.Middleware.Retry.Attempts.{Tries, handle-Tries}
use cascade_proxy.Middleware.Dedupe
use cascade_proxy.Middleware.Dedupe.{Seen, fingerprint, live}
use cascade_proxy.Middleware.Dedupe.Replay.{seen_after, duplicate_replayed}
use cascade_proxy.Middleware.Dedupe.Concurrent.{
  System, init, wait, begin, finish, Run, none_yet, then_, stays_remembered, handle-Run, events,
  waited, replayed, began, served,
}
use cascade_proxy.Middleware.PathRateLimit
use cascade_proxy.Middleware.PathRateLimit.{Limiters}
use cascade_proxy.Middleware.PathRateLimit.Runs.{
  limiter_at, grants_at, requests_at, grants_at-grants,
}
use cascade_proxy.Middleware.BreachLog
use cascade_proxy.Middleware.BreachLog.{
  BreachLog, empty, window_of, write_code, read_window, record_code,
}
use cascade_proxy.Middleware.BreachLog.Window.{errors_in}
use cascade_proxy.Middleware.BreachLog.Reading.{last}
use cascade_proxy.Middleware.BreachLog.Reports.{observe_all, codes_of}
use cascade_proxy.Middleware.BreachLog.Runs.{observe_all-window}
use cascade_proxy.Middleware.ResponseTransform.Rewritten.{last_status, bodies}

abbrev request : Request
request = record {
  method = ascii "POST";
  scheme = [];
  url_host = [];
  path = ascii "/users";
  raw_query = [];
  host = ascii "front";
  header = [];
  remote_addr = ascii "10.0.0.1:80";
  request_uri = ascii "/users";
  body = none;
}

abbrev clock : Clock ℕ
clock = record { now = λ w. w; sleep = λ d w. w + d }

-- A recorder that passes nothing on before it is flushed.
abbrev buffering : Recording
buffering = record {
  status = last_status 200;
  body = bodies;
  header = header_after [];
  passed = λ ops. [];
  flush = λ ops. ops;
}

-- It fails up to the time 9.
abbrev waking : Handler ℕ
waking r h w = elim (ltb w 10) [
  | true ↦ (write_header 503 ∷ [], w + 3)
  | false ↦ (write_header 201 ∷ write_body (ascii "hello") ∷ [], w + 3)
]

abbrev patient : Retry.Config
patient = record { max_attempts = 3; delay = 4; retryable_status = 503 ∷ [] }

handle-Tries_example :
    Tries clock buffering patient waking request 3 [] 5
      (Retry.handle clock buffering patient waking request [] 5)
handle-Tries_example = handle-Tries clock buffering patient waking request [] 5

abbrev once : Dedupe.Config
once = record { ttl = 50; methods = ascii "POST" ∷ [] }

abbrev hash : Text → Text
hash t = t

abbrev url : Request → Text
url r = r.path

abbrev other : Request
other = record request { path = ascii "/b" }

abbrev hello : Handler ℕ
hello r h w = (
  set_header (ascii "Vary") (ascii "Origin") ∷ write_header 201 ∷ write_body (ascii "hello") ∷ [],
  w + 3,
)

abbrev between : List (Request × Header × ℕ)
between = (other, [], 12) ∷ []

listed : member request.method once.methods ≡ true
unfolding text_eq ascii
listed = refl

duplicate_replayed_example :
    let seen1 = (Dedupe.handle hash url clock buffering once hello request [] ([], 5)).1.0 in
    let seen2 = seen_after hash url clock buffering once hello between seen1 in
    let (told, state) = Dedupe.handle hash url clock buffering once hello request [] (seen2, 40) in
    ((Dedupe.handle hash url clock buffering once hello request [] ([], 5)).0 ≡ [])
    × (state ≡ (seen2, 40))
    × (response [] told ≡ record {
      status = 201;
      header =
          set
            (ascii "X-Dedupe-Hit")
            (ascii "true")
            (header_after [] (header_ops (header_after [] (hello request [] 5).0)));
      body = ascii "hello" ++ [];
    })
unfolding last_status bodies ascii
duplicate_replayed_example =
    duplicate_replayed hash url clock buffering once hello [] request request [] [] 5 40 between
      listed (unfold lookup in refl) (unfold fingerprint text_eq ascii in refl, tt) listed refl
      (omega arith)

-- A request that is done at 12, while another has begun; then that is done too.
abbrev key : Text
key = ascii "k"

abbrev answered : Dedupe.Entry
answered = Dedupe.entry_of buffering once 12 (hello request [] 5).0

abbrev at_first : System
at_first = record { seen = insert key answered []; flying = ascii "x" ∷ []; now = 12 }

abbrev at_last : System
at_last = record {
  seen = insert (ascii "x") (Dedupe.entry_of buffering once 40 []) (insert key answered []);
  flying = [];
  now = 40;
}

earlier : Run buffering once (init 5) at_first
unfolding lookup
earlier =
    then_
      (then_ (then_ (then_ none_yet (begin key refl)) (begin (ascii "x") refl))
        (wait 12 (omega arith)))
      (finish (ascii "x" ∷ []) [] key (hello request [] 5).0 refl)

meanwhile : Run buffering once at_first at_last
meanwhile = then_ (then_ none_yet (wait 40 (omega arith))) (finish [] [] (ascii "x") [] refl)

stays_remembered_example :
    (found : Dedupe.Entry) × (live at_last.now (lookup key at_last.seen) ≡ some found)
    × (answered.expiry ≤ found.expiry)
stays_remembered_example =
    stays_remembered buffering once 5 key answered earlier
      (unfold lookup insert text_eq ascii in refl) meanwhile (omega arith)

handle-Run_example :
    let (ops, (seen', w')) = Dedupe.handle hash url clock buffering once hello request [] ([], 5) in
    let key' = fingerprint hash url request in
    (run : Run buffering once
      (record { seen = []; flying = key ∷ []; now = 5 })
      (record { seen = seen'; flying = key ∷ []; now = w' }))
    × (events run ≡ (
        if member request.method once.methods
        then elim (live 5 (lookup key' [])) [
          | none ↦ began key' ∷ waited ∷ served key' (hello request [] 5).0 ∷ []
          | some e ↦ replayed key' ∷ []
        ]
        else waited ∷ []))
handle-Run_example =
    handle-Run hash url clock buffering once hello request [] [] (key ∷ []) 5 (omega arith)

-- Two requests a second for paths below /api, and five for others.
abbrev limits : Limiters
limits = PathRateLimit.new (record {
  rules = record { prefix = ascii "/api"; rate = 1; burst = 2 } ∷ [];
  fallback = some (record { requests_per_second = 5; burst = 5 });
})

abbrev calls : List (Text × Text × ℕ)
calls =
    (ascii "/api/a", ascii "ann", 5)
    ∷ (ascii "/b", ascii "ann", 5)
    ∷ (ascii "/api/b", ascii "ann", 6)
    ∷ (ascii "/api/c", ascii "ann", 7)
    ∷ []

grants_at-grants_example :
    grants_at 0 (ascii "ann") limits calls
    ≡ grants
        (ascii "ann")
        (RateLimiter.new (record { requests_per_second = 1; burst = 2 }))
        (requests_at 0 limits.entries calls)
grants_at-grants_example =
    grants_at-grants 0 (ascii "ann") limits calls
      (RateLimiter.new (record { requests_per_second = 1; burst = 2 }))
      (unfold PathRateLimit.new limiter_at in refl)

-- A window of two codes, and three requests.
abbrev watching : BreachLog.Config
watching = record { window_size = 2; errors = 1; out_of = 2 }

abbrev seen_codes : List (Text × ℕ × ℕ)
seen_codes = (ascii "/a", 5, 500) ∷ (ascii "/b", 6, 200) ∷ (ascii "/a", 7, 200) ∷ []

observe_all-window_example :
    (log : BreachLog) × (observe_all watching seen_codes empty ≡ some log)
    × (let codes = codes_of (ascii "/a") seen_codes ++ (503 ∷ []) in
        let w = write_code 503 2 (window_of watching (ascii "/a") log) in
        let (ratio, breach) = read_window 8 2 w in
        (record_code 8 503 2 (window_of watching (ascii "/a") log) ≡ some (ratio, breach, w))
        × (ratio.errors ≡ errors_in (last 2 codes))
        × (ratio.length ≡ min (length codes) 2))
observe_all-window_example = observe_all-window watching seen_codes (ascii "/a") 8 503 (omega arith)
