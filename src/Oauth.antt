-- ===== src/Oauth.antt =====
-- The OAuth provider of the HTTP endpoint (internal/app/oauth.go, oauth_refresh.go).
pub mod State
pub mod Client
pub mod Authorize
pub mod Exchange
pub mod Refresh
pub mod Token
pub mod Machine
pub mod Approved
pub mod Family
pub mod Once
pub mod Bounded
pub mod Rotation
pub mod Redirect
pub mod Registered
pub mod Examples
pub mod Limit
pub mod Registry
