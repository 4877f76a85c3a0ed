-- ===== src/Sessions.antt =====
-- store/sessions: stateful session rows and the in-memory store that keeps them.
pub mod Record
pub mod Store
pub mod Feed
