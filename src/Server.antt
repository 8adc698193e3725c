-- ===== src/Server.antt =====
-- internal/server
pub mod Outside
pub mod Fake
pub mod Duration
pub mod Keeps
pub mod Listing
pub mod Kubeconfig
pub mod ReadOnly
pub mod Turns
pub mod Build
pub mod Tools
pub mod Clients
pub mod Wiring
mod Tests
