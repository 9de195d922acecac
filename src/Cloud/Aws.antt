-- ===== src/Cloud/Aws.antt =====
-- internal/cloud/aws/manager.go
pub mod Names
pub mod Errors
pub mod Placement
pub mod Template
pub mod Calls
pub mod Balancers
pub mod Deletion
pub mod Targets
pub mod Scaling
pub mod Exposing
pub mod Serving
pub mod Group
mod Examples
