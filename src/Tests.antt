-- ===== src/Tests.antt =====
-- The theorems at concrete inputs.
mod Cookies
mod Rotation
mod Grafana
mod Reconcile
mod Lock
mod Lease
mod Web
mod Snippet
mod Native
mod Login
mod Config
mod Metrics
mod Page
mod Command
mod Ready
