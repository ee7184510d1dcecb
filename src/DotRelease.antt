-- ===== src/DotRelease.antt =====
-- tools/dotimage.py: class DotRelease, and the helpers of tools/techo5lib.py that it uses.
pub mod Archives
pub mod Opening
pub mod Trusted
