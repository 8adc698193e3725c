-- ===== src/Proxy.antt =====
-- internal/proxy
pub mod Process
pub mod Systemd
pub mod Dispatch
mod Tests
