-- ===== src/Grafana.antt =====
-- internal/server/grafana.go and grafana_legacy.go: the client of Grafana's two service account
-- APIs. `Types` has the data, `Net` the HTTP round trip, `Iam` and `Legacy` the operations of each
-- API, `Client` the choice between them.
pub mod Types
pub mod Net
pub mod Errors
pub mod Iam
pub mod Legacy
pub mod Client
pub mod Pages
pub mod Traffic
