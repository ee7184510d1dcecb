-- ===== src/Console.antt =====
-- tools/techo5lib.py: a unit's USB serial console.
pub mod Exchange
pub mod Unit
pub mod Output
pub mod Session
