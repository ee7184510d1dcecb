-- ===== src/Backups.antt =====
-- tools/install-dot.py: the backups of a unit's partitions.
pub mod Copies
pub mod Kept
