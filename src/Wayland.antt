-- ===== src/Wayland.antt =====
-- The Wayland client of internal/app/keyboard.go: its wire format, its events, and how it starts.
pub mod Wire
pub mod RoundTrip
pub mod Event
pub mod Start
pub mod Globals
pub mod Steps
pub mod Announced
pub mod Received
pub mod Ready
pub mod Watch
pub mod Examples
