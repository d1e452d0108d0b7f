-- ===== src/Tests.antt =====
-- Concrete libraries and clusters, and the theorems at concrete inputs.
mod Libraries
mod Cluster
mod Resources
mod Conditions
mod Taints
mod Params
mod Waiting
mod Executer
mod Remediation
mod Templates
mod Admission
mod Pods
mod Startup
mod Stage
mod Operator
