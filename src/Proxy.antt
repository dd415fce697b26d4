-- ===== src/Proxy.antt =====
-- internal/proxy/proxy.go: the router of the gateway, with its writers and retries.
pub mod Writers
pub mod Router
pub mod Attempts
pub mod Serve
mod Tests
