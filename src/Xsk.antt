-- ===== src/Xsk.antt =====
-- The forwarding program of ebpf-xdp/xsk: its buffer pool, its ports and its threads.
pub mod Pool
pub mod Port
pub mod Thread
pub mod Args
mod Tests
