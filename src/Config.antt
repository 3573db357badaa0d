-- ===== src/Config.antt =====
-- internal/server/config.go: the configuration that the environment gives.
pub mod Env
pub mod Load
pub mod Check
pub mod Stages
pub mod Valid
pub mod Checked
pub mod Configured
