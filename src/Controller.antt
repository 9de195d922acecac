-- ===== src/Controller.antt =====
-- internal/controller/machinegroup_controller.go
pub mod Assign
pub mod Exec
pub mod Select
pub mod Resolve
pub mod Prune
pub mod PortStatus
pub mod Reconcile
pub mod Group
pub mod Sound
pub mod Provision
pub mod Delete
pub mod Undone
pub mod Verdict
pub mod Examples
