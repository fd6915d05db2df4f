-- ===== src/Shm.antt =====
-- One direction of a link over shared memory: src/shmlink.py.
pub mod Memory
pub mod Put
pub mod Read
pub mod Ring
pub mod Wake
pub mod Stream
