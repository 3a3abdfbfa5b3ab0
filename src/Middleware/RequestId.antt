-- ===== src/Middleware/RequestId.antt =====
-- internal/middleware/requestid.go. The source of new identifiers is a parameter.
use cascade_proxy.Common.{Text, ascii, ◌∷◌, [], text_eq, if◌then◌else◌}
use cascade_proxy.Http.{Request, set_header, get, set}
use cascade_proxy.Middleware.Contexts.{InContext, with_value, request_id_key, text_value}

abbrev pub request_id_header : Text
request_id_header = ascii "X-Request-ID"

-- the identifier that the request names, or else a new one
abbrev pub id_of : Request → Text → Text
id_of r fresh = let sent = get request_id_header r.header in if text_eq sent [] then fresh else sent

-- the request that is passed on
abbrev pub tagged : Text → Request → Request
tagged id r = record r { header = set request_id_header id r.header }

-- The handler that NewRequestIDMiddleware makes.
unfoldable pub handle : {C W : Type 0} → (W → Text × W) → InContext C W → InContext C W
handle new_id next ctx r h w =
    let (fresh, w0) = new_id w in
    let id = id_of r fresh in
    let (ops, w') =
      next (with_value request_id_key (text_value id) ctx) (tagged id r)
        (set request_id_header id h)
        (if text_eq (get request_id_header r.header) [] then w0 else w) in
    (set_header request_id_header id ∷ ops, w')
