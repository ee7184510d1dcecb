-- ===== src/SetWifi.antt =====
-- tools/set-wifi.py: the Wi-Fi network of a unit that runs, over its console.
pub mod Program
pub mod Reach
pub mod Joins
