-- ===== src/Net.antt =====
-- The network layer of source/imconee/netkit.h and netkit.cpp.
pub mod Order
pub mod Address
pub mod Endpoint
pub mod Packet
pub mod Session
mod Tests
