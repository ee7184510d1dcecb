-- ===== src/CommandLine.antt =====
-- The programs that run mkimage.py and mkrootfs.py, and the command lines between them.
pub mod Options
pub mod Packages
pub mod Paths
pub mod BootImage
pub mod MkimageArgs
pub mod Meant
pub mod Reads
pub mod Rootfs
pub mod MkrootfsArgs
pub mod RootfsReads
pub mod RootfsPaths
pub mod RootfsBuild
