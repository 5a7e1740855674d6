-- ===== src/Keth.antt =====
-- keth-if/kernel/core.c and core.h: a pair of network devices, each the far end of the other, with
-- a pool of packet buffers, polling and interrupts.
pub mod Model
pub mod Pool
pub mod Receive
pub mod Transmit
pub mod Control
pub mod Header
pub mod Startup
mod Tests
