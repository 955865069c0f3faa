-- ===== src/Kube.antt =====
-- The Kubernetes API as the operator uses it: the fields of the API's structs that the operator
-- reads or writes, the ten kinds of objects, and the client.
pub mod Meta
pub mod Pods
pub mod Mounts
pub mod Workloads
pub mod Volumes
pub mod Objects
pub mod Client
pub mod Memory
