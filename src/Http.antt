-- ===== src/Http.antt =====
-- The HTTP endpoint of internal/app/http.go: where it may listen, which requests it lets through,
-- and the peers of the gateway.
pub mod Origin
pub mod Guarded
pub mod Peers
pub mod Examples
