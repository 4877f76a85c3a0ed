-- ===== src/Core.antt =====
-- internal/core: the sealed authentication vocabulary and every transition between its values.
pub mod Factor
pub mod Policy
pub mod Verified
pub mod Pending
pub mod Attrs
pub mod Transitions
pub mod Codec
pub mod Sealed
pub mod Reach
