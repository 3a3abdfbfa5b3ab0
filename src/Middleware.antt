-- ===== src/Middleware.antt =====
-- internal/middleware: the handlers that wrap other handlers.
pub mod Recorder
pub mod Cache
pub mod Auth
pub mod IpFilter
pub mod GeoBlock
pub mod Sanitize
pub mod Redirect
pub mod Cors
pub mod Breaker
pub mod RateLimit
pub mod Throttle
pub mod BasicAuth
pub mod Headers
pub mod Metrics
pub mod Rewrite
pub mod Maintenance
pub mod BreachLog
pub mod Canary
pub mod Compress
pub mod ResponseTransform
pub mod Recording
pub mod Retry
pub mod Shadow
pub mod Upstream
pub mod ProxyError
pub mod Balancing
pub mod Logged
pub mod Timeout
pub mod RequestTransform
pub mod Dedupe
pub mod PathRateLimit
pub mod Failover
pub mod Contexts
pub mod RequestId
pub mod Tracing
pub mod Jwt
pub mod RequestSize
pub mod BodySize
mod Examples
