-- ===== src/Ed25519.antt =====
-- tools/techo5lib.py: the ed25519 verification written out there.
pub mod Field
pub mod Roots
pub mod Curve
pub mod Accepts
