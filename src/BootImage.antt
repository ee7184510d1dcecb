-- ===== src/BootImage.antt =====
-- tools/linux/mkimage.py: the Android boot image around the initramfs.
pub mod Fields
pub mod Words
pub mod Quotes
pub mod Cmdline
pub mod Drops
pub mod Format
pub mod Header
pub mod RoundTrip
