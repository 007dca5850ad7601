-- ===== src/Broker.antt =====
-- The permission broker (internal/app/broker.go, sharing.go): its state, the decision whether a
-- client may act, the operations on requests and grants, and what they keep true.
pub mod State
pub mod Scope
pub mod Permit
pub mod Cleanup
pub mod Revoke
pub mod Decide
pub mod Share
pub mod Supervise
pub mod Run
pub mod Access
pub mod Invariant
pub mod Effects
pub mod Closed
pub mod Epoch
pub mod Approval
pub mod Examples
