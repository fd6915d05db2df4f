-- ===== src/Gnb.antt =====
-- The gNB adapter's state and handlers: src/NGAPSim.py.
pub mod State
pub mod Links
pub mod Stamps
pub mod Handlers
pub mod Downlink
pub mod Flow
mod Examples
