-- ===== src/Proxy.antt =====
-- internal/proxy: the reverse proxy that retries through a circuit breaker.
pub mod Request
pub mod Serve
mod Examples
