-- ===== src/Release.antt =====
-- tools/techo5lib.py: checked downloads and the signed release.
pub mod World
pub mod Download
pub mod Manifest
pub mod Fetching
pub mod Trust
