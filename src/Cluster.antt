-- ===== src/Cluster.antt =====
-- shared/cluster: the node that a job is sent to.
pub mod Dispatch
pub mod Placement
pub mod Nodes
mod Tests
