-- ===== src/UeSim.antt =====
-- A UE simulator process: src/UESim.py.
pub mod State
pub mod Dispatch
pub mod Events
pub mod Counts
pub mod Keeps
pub mod Run
pub mod Calls
pub mod Places
pub mod Held
mod Examples
