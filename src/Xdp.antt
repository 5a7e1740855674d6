-- ===== src/Xdp.antt =====
-- The XDP programs of ebpf-xdp.
pub mod Action
pub mod Memory
pub mod Parsing
pub mod Rewrite
pub mod BlockPort
pub mod MapAllow
pub mod Route
pub mod RedirectDev
pub mod RedirectXsk
mod Tests
