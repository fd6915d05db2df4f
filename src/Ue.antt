-- ===== src/Ue.antt =====
-- A UE's next procedure: UE.next_action of src/UE.py.
pub mod NextAction
pub mod State
pub mod Handlers
pub mod Order
pub mod Keeps
pub mod Secured
pub mod Compliance
pub mod Examples
