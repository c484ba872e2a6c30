-- ===== src/Config.antt =====
-- internal/config/config.go: the configuration, read from the environment and checked.
pub mod Parse
pub mod Load
pub mod Checked
