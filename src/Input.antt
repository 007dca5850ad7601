-- ===== src/Input.antt =====
-- Input to a window: `guard` and `input` of internal/app/desktop.go, and the checks of pointer
-- actions of internal/app/pointer.go.
pub mod Guard
pub mod Pointer
pub mod Check
pub mod Deliver
pub mod Chunks
pub mod Plan
pub mod Authorized
pub mod Batch
pub mod Run
pub mod Outcome
pub mod Allowed
pub mod Examples
pub mod Fields
pub mod Decoded
pub mod Complete
pub mod Prepared
