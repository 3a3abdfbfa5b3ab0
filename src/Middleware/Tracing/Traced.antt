-- ===== src/Middleware/Tracing/Traced.antt =====
-- What is logged of a traced request.
use cascade_proxy.Common.{
  ◌-◌, ◌≡◌, refl, ap, ◌∙◌, false, List, [], ◌∷◌, Text, ascii, text_eq, if◌then◌else◌,
}
use cascade_proxy.Http.{Header, Request, Clock, get, set, response, apply_all, apply, start}
use cascade_proxy.Middleware.Contexts.{
  InContext, Context, with_value, trace_id_key, text_value, trace_id_from_context,
  request_id_from_context, jwt_claims_from_context,
}
use cascade_proxy.Middleware.Logged
use cascade_proxy.Middleware.Logged.{StatusRecorder}
use cascade_proxy.Middleware.Logged.Lines.{IsOrderly, status_kept, buffered-status}
use cascade_proxy.Middleware.Tracing.{Line, new, handle, id_of, trace_id_header}

-- A handler stands behind the middleware of tracing.go, and writes, in the context that it gets
-- there, its status once and before the body, or no status. It finds in this context the identifier
-- of the trace, which the request names or else is new, and the identifier of the request and the
-- claims that were there before. The client receives what the handler writes, on a header that has
-- the identifier under X-Trace-ID, and the line that is logged has this identifier and the status
-- that the client receives.
pub handle-traced :
    {C W : Type 0} (clock : Clock W) (new_id : W → Text × W) (next : InContext C W)
    (ctx : Context C) (r : Request) (h : Header) (log : List Line) (w : W)
    → let (fresh, w0) = new_id w in
      let id = id_of r fresh in
      let behind : Context C = with_value trace_id_key (text_value id) ctx in
      let w1 = if text_eq (get trace_id_header r.header) [] then w0 else w in
      let (ops, w2) = next behind r (set trace_id_header id h) w1 in
      let (told, (log', w')) = handle clock new_id next ctx r h (log, w) in
      let got = response h told in
      IsOrderly false ops
      → (trace_id_from_context behind ≡ id)
        × (request_id_from_context behind ≡ request_id_from_context ctx)
        × (jwt_claims_from_context behind ≡ jwt_claims_from_context ctx)
        × (got ≡ response (set trace_id_header id h) ops)
        × (log'
            ≡ record {
              trace_id = id;
              method = r.method;
              path = r.path;
              status = got.status;
              duration = clock.now w2 - clock.now w1;
            }
              ∷ log)
        × (w' ≡ w2)
unfolding handle trace_id_from_context request_id_from_context jwt_claims_from_context response
    apply_all apply
handle-traced clock new_id next ctx r h log w orderly =
    let (fresh, w0) = new_id w in
    let id = id_of r fresh in
    let w1 = if text_eq (get trace_id_header r.header) [] then w0 else w in
    let (ops, w2) =
      next (with_value trace_id_key (text_value id) ctx) r (set trace_id_header id h) w1 in
    let same =
      buffered-status ops new Logged.new refl
      ∙ status_kept false ops Logged.new (start (set trace_id_header id h)) orderly refl refl in
    (
      unfold text_eq ascii in refl,
      refl,
      refl,
      refl,
      ap
          (λ s.
            record {
              trace_id = id;
              method = r.method;
              path = r.path;
              status = s;
              duration = clock.now w2 - clock.now w1;
            }
            ∷ log)
          same,
      refl,
    )
