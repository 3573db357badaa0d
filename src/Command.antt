-- ===== src/Command.antt =====
-- cmd/grafana-mcp-setup/main.go: the command line.
pub mod Flags
pub mod Dry
pub mod Run
