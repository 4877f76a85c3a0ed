-- ===== src/Tests.antt =====
-- Concrete runs: each witness applies a theorem at inputs where its conditions hold.
pub mod Login
pub mod Transitions
pub mod Codec
pub mod Stores
pub mod Tokens
pub mod Families
pub mod Ceremonies
pub mod Caches
