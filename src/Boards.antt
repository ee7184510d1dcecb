-- ===== src/Boards.antt =====
-- tools/dotimage.py, update-boot.py and install-dot.py: the boards and their kernels.
pub mod Kernels
pub mod Choice
pub mod Matching
