-- ===== src/Ipam/Client.antt =====
-- lib/ipam/ipam.go, as programs over the datastore.
-- The text of a CIDR, by which a handle names its blocks, is a parameter: `name` is String() of net.IPNet.
pub mod Handles
pub mod Assigning
pub mod Config
pub mod Blocks
pub mod AutoAssign
pub mod AssignIp
pub mod Release
use zyzxlibcalico_go.Prelude.{ℕ}

-- datastoreRetries
abbrev pub datastore_retries : ℕ
datastore_retries = 100
