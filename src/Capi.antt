-- ===== src/Capi.antt =====
-- internal/capi
pub mod Target
pub mod Pattern
pub mod Resolve
pub mod Store
pub mod ReadOnly
pub mod Clients
pub mod RestConfig
pub mod OpenStack
pub mod CustomFields
pub mod Listing
pub mod Transform
mod Tests
