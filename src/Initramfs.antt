-- ===== src/Initramfs.antt =====
-- tools/linux/mkimage.py: the initramfs and the boot image that `main` builds.
pub mod Build
pub mod Image
