-- ===== src/Reconcile.antt =====
-- internal/server/reconcile.go: the commands `reconcile` and `offboard`, over the interface `Admin`
-- of what they call.
pub mod Admin
pub mod Targets
pub mod Loop
pub mod Plan
pub mod Run
pub mod Watched
pub mod Safety
