-- ===== src/Pacing.antt =====
-- src/pacing.py: when the UE simulator starts each UE, and how many may be in their procedures.
pub mod Offsets
pub mod InFlight
