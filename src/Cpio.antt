-- ===== src/Cpio.antt =====
-- tools/linux/mkimage.py: the initramfs archive, written and walked.
pub mod Hex
pub mod Archive
pub mod Walk
pub mod Layout
pub mod RoundTrip
pub mod Verify
pub mod Ends
pub mod Tree
pub mod Skipping
pub mod Parents
