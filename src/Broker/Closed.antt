-- ===== src/Broker/Closed.antt =====
-- When the broker is closed (internal/app/broker.go): while it is paused, and while it waits for
-- the compositor, nothing is allowed whatever else happens in the meantime.
pub mod Keeps
pub mod Tests
pub mod Unconfirmed
pub mod Paused
