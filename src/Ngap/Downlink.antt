-- ===== src/Ngap/Downlink.antt =====
-- The downlink parser of src/ngapfast.py.
pub mod Values
pub mod Layout
pub mod Container
pub mod Walk
pub mod Accept
pub mod Messages
pub mod NasTransport
pub mod Replays
pub mod Learn
