-- ===== src/Cpe.antt =====
-- TI/openwrt_cpe/src: the router's translation of addresses and ports.
pub mod Checksum
pub mod Filter
pub mod Ports
pub mod Track
mod Tests
