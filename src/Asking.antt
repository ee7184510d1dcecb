-- ===== src/Asking.antt =====
-- tools/techo5lib.py: the questions that the tools ask before they begin.
pub mod Units
pub mod Questions
pub mod Answers
