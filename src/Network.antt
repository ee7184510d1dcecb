-- ===== src/Network.antt =====
-- tools/install-dot.py: the Wi-Fi network, and the identity that Home Assistant knows the unit by.
pub mod Wifi
pub mod Identity
pub mod Provisioned
