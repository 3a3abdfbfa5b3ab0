-- ===== src/Middleware/Headers/Sent.antt =====
-- Which headers reach the client.
use cascade_proxy.Common.{
  ℕ, ◌≡◌, refl, ap, ◌∙◌, Bool, true, false, Option, none, some, List, [], ◌∷◌, ◌++◌, any, arith,
  if◌then◌else◌, Text, text_eq, Dict,
}
use cascade_proxy.Http.{
  Header, WriteOp, set_header, add_header, del_header, write_header, write_body, set, add, del,
  at_key, Client, start, apply, apply_all, finish, response,
}
use cascade_proxy.Http.Canonical.{canonical}
use cascade_proxy.Http.Laws.{at_key-set, at_key-del}
use cascade_proxy.Middleware.Recorder.Laws.{apply_all-append}
use cascade_proxy.Middleware.Headers.{
  Config, del_all, set_all, del_ops, set_ops, apply_headers, intercept,
}

-- A status or a part of the body is written.
abbrev pub writes : List WriteOp → Bool
writes [] = false
writes (set_header _ _ ∷ ops) = writes ops
writes (add_header _ _ ∷ ops) = writes ops
writes (del_header _ ∷ ops) = writes ops
writes (write_header _ ∷ ops) = true
writes (write_body _ ∷ ops) = true

-- The last value that the configuration has for the key.
abbrev pub configured : Text → Dict Text → Option Text
configured j [] = none
configured j ((k, v) ∷ m) = elim (configured j m) [
  | some u ↦ some u
  | none ↦ if text_eq (canonical k) j then some v else none
]

abbrev pub configured_or : Option Text → List Text → List Text
configured_or none vs = vs
configured_or (some v) vs = v ∷ []

at_key-set_all :
    (m : Dict Text) (h : Header) (j : Text)
    → at_key j (set_all m h) ≡ configured_or (configured j m) (at_key j h)
unfolding set_all
at_key-set_all [] h j = refl
at_key-set_all ((k, v) ∷ m) h j =
    rw (at_key-set_all m (set k v h) j, at_key-set k v j h) (ground arith)

at_key-del_all :
    (ks : List Text) (h : Header) (j : Text)
    → at_key j (del_all ks h) ≡ (if any (λ k. text_eq (canonical k) j) ks then [] else at_key j h)
unfolding del_all
at_key-del_all [] h j = refl
at_key-del_all (k ∷ ks) h j = rw (at_key-del_all ks (del k h) j, at_key-del k j h) (ground arith)

apply_all-set_ops :
    (c : Client) (m : Dict Text)
    → apply_all c (set_ops m) ≡ record c { header = set_all m c.header }
unfolding apply_all apply set_ops set_all
apply_all-set_ops c [] = refl
apply_all-set_ops c ((k, v) ∷ m) = apply_all-set_ops (record c { header = set k v c.header }) m

apply_all-del_ops :
    (c : Client) (ks : List Text)
    → apply_all c (del_ops ks) ≡ record c { header = del_all ks c.header }
unfolding apply_all apply del_ops del_all
apply_all-del_ops c [] = refl
apply_all-del_ops c (k ∷ ks) = apply_all-del_ops (record c { header = del k c.header }) ks

abbrev edited : Config → Header → Header
edited cfg h = set_all cfg.response_headers (del_all cfg.remove_response_headers h)

apply_all-apply_headers :
    (cfg : Config) (h : Header) (ops : List WriteOp)
    → apply_all (start h) (apply_headers cfg ++ ops) ≡ apply_all (start (edited cfg h)) ops
unfolding apply_headers
apply_all-apply_headers cfg h ops =
    rw
      (
        apply_all-append (start h)
            (del_ops cfg.remove_response_headers ++ set_ops cfg.response_headers) ops,
        apply_all-append (start h) (del_ops cfg.remove_response_headers)
            (set_ops cfg.response_headers),
        apply_all-del_ops (start h) cfg.remove_response_headers,
        apply_all-set_ops (start (del_all cfg.remove_response_headers h)) cfg.response_headers,
      )
      refl

-- What was sent stays sent.
apply_all-sent :
    (c : Client) (ops : List WriteOp) (s : ℕ × Header)
    → c.sent ≡ some s
    → (apply_all c ops).sent ≡ some s
unfolding apply_all apply
apply_all-sent c [] s e = e
apply_all-sent c (set_header k v ∷ ops) s e = apply_all-sent (apply c (set_header k v)) ops s e
apply_all-sent c (add_header k v ∷ ops) s e = apply_all-sent (apply c (add_header k v)) ops s e
apply_all-sent c (del_header k ∷ ops) s e = apply_all-sent (apply c (del_header k)) ops s e
apply_all-sent c (write_header n ∷ ops) s e =
    apply_all-sent (apply c (write_header n)) ops s (ground arith)
apply_all-sent c (write_body b ∷ ops) s e =
    apply_all-sent (apply c (write_body b)) ops s (ground arith)

sent_header : (c : Client) (s : ℕ × Header) → c.sent ≡ some s → (finish c).header ≡ s.1
sent_header c s e = ground arith

response-write :
    (h : Header) (op : WriteOp) (n : ℕ) (ops : List WriteOp)
    → (apply (start h) op).sent ≡ some (n, h)
    → (response h (op ∷ ops)).header ≡ h
unfolding response apply_all
response-write h op n ops e =
    sent_header (apply_all (apply (start h) op) ops) (n, h)
      (apply_all-sent (apply (start h) op) ops (n, h) e)

response-apply_headers :
    (cfg : Config) (h : Header) (ops : List WriteOp)
    → response h (apply_headers cfg ++ ops) ≡ response (edited cfg h) ops
unfolding response
response-apply_headers cfg h ops = ap finish (apply_all-apply_headers cfg h ops)

abbrev Edits : Config → Text → List Text → List Text → Type 0
Edits cfg j after before =
    after
    ≡ configured_or (configured j cfg.response_headers)
        (if any (λ k. text_eq (canonical k) j) cfg.remove_response_headers then [] else before)

write-Edits :
    (cfg : Config) (h : Header) (op : WriteOp) (n : ℕ) (rest ops : List WriteOp) (j : Text)
    → ((h' : Header) → (apply (start h') op).sent ≡ some (n, h'))
    → Edits cfg j
        (at_key j (response h (apply_headers cfg ++ (op ∷ rest))).header)
        (at_key j (response h (op ∷ ops)).header)
write-Edits cfg h op n rest ops j e =
    rw
      (
        response-apply_headers cfg h (op ∷ rest),
        response-write (edited cfg h) op n rest (e (edited cfg h)),
        response-write h op n ops (e h),
      )
      (at_key-set_all cfg.response_headers (del_all cfg.remove_response_headers h) j
        ∙ ap (configured_or (configured j cfg.response_headers))
            (at_key-del_all cfg.remove_response_headers h j))

-- The client's header has, if the handler writes a status or a body, under a key that the
-- configuration adds the configured value, under another that it removes nothing, and under every
-- other key what the handler's own header would have there.
pub intercept-header :
    (cfg : Config) (h : Header) (ops : List WriteOp) (j : Text)
    → writes ops ≡ true
    → at_key j (response h (intercept cfg false ops)).header
      ≡ configured_or (configured j cfg.response_headers) (
          if any (λ k. text_eq (canonical k) j) cfg.remove_response_headers
          then []
          else at_key j (response h ops).header)
unfolding intercept response apply_all apply
intercept-header cfg h [] j e = cc
intercept-header cfg h (set_header k v ∷ ops) j e = intercept-header cfg (set k v h) ops j e
intercept-header cfg h (add_header k v ∷ ops) j e = intercept-header cfg (add k v h) ops j e
intercept-header cfg h (del_header k ∷ ops) j e = intercept-header cfg (del k h) ops j e
intercept-header cfg h (write_header n ∷ ops) j e =
    write-Edits cfg h (write_header n) n (intercept cfg true ops) ops j (λ _. refl)
intercept-header cfg h (write_body b ∷ ops) j e =
    write-Edits cfg h (write_body b) 200 (intercept cfg true ops) ops j (λ _. refl)

-- A handler that writes neither a status nor a body is passed through as it is, so that the client
-- gets none of the configured headers and keeps those that should be removed.
pub intercept_silent :
    (cfg : Config) (ops : List WriteOp) → writes ops ≡ false → intercept cfg false ops ≡ ops
unfolding intercept
intercept_silent cfg [] e = refl
intercept_silent cfg (set_header k v ∷ ops) e =
    ap (◌∷◌ (set_header k v)) (intercept_silent cfg ops e)
intercept_silent cfg (add_header k v ∷ ops) e =
    ap (◌∷◌ (add_header k v)) (intercept_silent cfg ops e)
intercept_silent cfg (del_header k ∷ ops) e = ap (◌∷◌ (del_header k)) (intercept_silent cfg ops e)
intercept_silent cfg (write_header _ ∷ ops) e = cc
intercept_silent cfg (write_body _ ∷ ops) e = cc
