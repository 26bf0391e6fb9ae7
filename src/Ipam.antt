-- ===== src/Ipam.antt =====
-- lib/ipam: the assignment of addresses to workloads, in blocks that hosts claim.
pub mod Address
pub mod Block
pub mod Handle
pub mod Pools
pub mod Datastore
pub mod ReaderWriter
pub mod Client
pub mod Runs
