-- ===== src/Ceremony.antt =====
-- store/ceremony: short-lived artefacts of a login, each of a closed set of kinds.
pub mod Kind
pub mod Record
pub mod Store
