-- ===== src/Lock.antt =====
-- internal/server/lock.go: the lock of one process, and the Kubernetes Lease.
pub mod Local
pub mod Callers
pub mod Sound
pub mod Exclusion
pub mod Kube
pub mod Lease
pub mod Make
pub mod Expiry
pub mod Renewal
