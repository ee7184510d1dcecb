-- ===== src/Update.antt =====
-- tools/update-boot.py: a new boot image on a unit that runs already.
pub mod Flash
pub mod Session
pub mod BootId
pub mod Heard
pub mod Outcomes
pub mod Safe
pub mod Progress
