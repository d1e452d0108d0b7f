-- ===== src/Utils.antt =====
-- pkg/utils.
pub mod Conditions
pub mod Nodes
pub mod Taints
pub mod Pods
