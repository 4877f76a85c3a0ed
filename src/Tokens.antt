-- ===== src/Tokens.antt =====
-- Refresh-token families: the record of a token and the in-memory store.
pub mod Record
pub mod ApiKey
pub mod Store
