-- ===== src/Config.antt =====
-- internal/config/config.go
pub mod Value
pub mod Env
pub mod Load
mod Tests
