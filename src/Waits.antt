-- ===== src/Waits.antt =====
-- tools/techo5lib.py and tools/update-boot.py: waiting for a unit, and trying again.
pub mod Loops
pub mod Ends
