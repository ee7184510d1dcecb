-- ===== src/Rootfs.antt =====
-- tools/linux/mkrootfs.py: the root filesystem as a tar.
pub mod Root
pub mod Prefixes
pub mod Tree
pub mod Build
pub mod Steps
pub mod Written
