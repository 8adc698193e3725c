-- ===== src/Embed.antt =====
-- internal/embed
pub mod Provider
pub mod Request
pub mod FanOut
pub mod Mount
mod Tests
