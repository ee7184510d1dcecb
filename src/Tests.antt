-- ===== src/Tests.antt =====
-- Runs on concrete inputs, and the theorems at inputs that meet their hypotheses.
mod MkImage
mod Techo5lib
mod Images
mod Consoles
mod Installs
mod Installing
mod Units
mod Releasing
mod Rejoining
mod Building
mod Booting
mod Updating
