-- ===== src/Nas.antt =====
-- src/nasfast.py: a UE's NAS messages without pycrate.
pub mod Layout
pub mod Walk
pub mod Protect
pub mod Downlink
pub mod Identity
pub mod Uplink
pub mod Examples
