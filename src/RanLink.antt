-- ===== src/RanLink.antt =====
-- src/ranlink.py: the link between the UE emulator and a RAN adapter. The frames of its events, and
-- the payloads that have a structure.
pub mod Event
pub mod Frame
pub mod Payload
