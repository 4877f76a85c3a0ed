-- ===== src/Revoke.antt =====
-- internal/revoke: the caches of revocation state that each process keeps.
pub mod Lru
pub mod Follower
pub mod Families
