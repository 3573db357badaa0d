-- ===== src/Metrics.antt =====
-- internal/server/metrics.go: what is counted, and how it is shown.
pub mod Counters
pub mod Record
pub mod Counted
pub mod Labels
pub mod Labelled
pub mod Bounded
pub mod Writer
pub mod Exposition
