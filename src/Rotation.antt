-- ===== src/Rotation.antt =====
-- internal/server/server.go: issuing, showing and revoking a user's token, over the interface
-- `Backend` of what these operations call.
pub mod Backend
pub mod Account
pub mod Issue
pub mod Revoke
pub mod Choice
pub mod Newest
pub mod Delivery
pub mod Trace
