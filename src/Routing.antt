-- ===== src/Routing.antt =====
-- internal/routing/match.go, and the choice of a route in internal/proxy/proxy.go.
pub mod Match
pub mod Select
