-- ===== src/Tools.antt =====
-- src/corvus_node/tools: the gate on paths that guest and Node share, and the guest's own file tools.
pub mod Files
pub mod Paths
