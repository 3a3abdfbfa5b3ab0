-- ===== src/Middleware/Balancing.antt =====
-- internal/middleware/balancer.go. httputil.ReverseProxy is a parameter: what it does with the
-- outgoing request that the Director has changed, `none` where the error handler is called. A panic
-- of the balancer is `none`, too. The log lines are left out.
pub mod Spread
use cascade_proxy.Common.{
  ℕ, Bool, true, false, not, Option, none, some, List, [], ◌∷◌, is_some, if◌then◌else◌, Text, ascii,
  lookup,
}
use cascade_proxy.Http.{Header, Request, WriteOp, http_error, set}
use cascade_proxy.Balancer.{Balancer, Choice, target, failed, panicked}
use cascade_proxy.Balancer
use cascade_proxy.Middleware.Failover.{Base, retarget}

-- The Director.
unfoldable pub direct : Base → Request → Request
direct base r =
    let req = retarget base r in
    if not (is_some (lookup (ascii "User-Agent") req.header))
    then record req { header = set (ascii "User-Agent") (ascii "cascade-proxy") req.header }
    else req

abbrev pub no_backend : List WriteOp
no_backend = http_error (ascii "no backend available") 502

abbrev pub bad_gateway : List WriteOp
bad_gateway = http_error (ascii "bad gateway") 502

-- what the client is told of a round trip
abbrev pub answered : Option (List WriteOp) → List WriteOp
answered none = bad_gateway
answered (some ops) = ops

module _ {W : Type 0} (proxy : Request → W → Option (List WriteOp) × W) where
  route : Choice Base → Request → W → Option (List WriteOp) × W
  unfolding direct
  route (target base) r w = let (got, w') = proxy (direct base r) w in (some (answered got), w')
  route failed r w = (some no_backend, w)
  route panicked r w = (none, w)

  -- The handler that NewBalancerMiddleware makes.
  unfoldable pub handle : Request → Balancer Base × W → Option (List WriteOp) × (Balancer Base × W)
  unfolding route
  handle r (b, w) =
      let (choice, b') = Balancer.next b in let (got, w') = route choice r w in (got, (b', w'))
