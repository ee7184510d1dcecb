-- ===== src/Install.antt =====
-- tools/install-dot.py, steps 5 to 7 of main: the commands that write to the unit.
pub mod Commands
pub mod Session
pub mod Script
pub mod Steps
pub mod Protocol
pub mod Ordered
pub mod Quiet
pub mod Whole
pub mod Progress
