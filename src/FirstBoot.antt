-- ===== src/FirstBoot.antt =====
-- tools/install-dot.py, the end of main: the first boot after an installation.
pub mod Answers
pub mod Watch
pub mod Ends
pub mod Verdicts
