-- ===== src/Placement.antt =====
-- How a run is laid out over processes: `create_ues`, `split_ues` and `share` of run.py and
-- src/affinity.py.
pub mod Ues
mod Deal
mod Split
mod Create
mod Places
mod Imsi
pub mod Share
pub mod Cpus
mod OwnCpu
mod Examples
