-- ===== src/Controller.antt =====
-- internal/controller: what the reconcilers compute.
mod Tests
pub mod Samples
pub mod Conditions
pub mod Secrets
pub mod Capacity
pub mod Claim
pub mod Replication
pub mod Credential
pub mod Artifacts
pub mod PolicyStatus
pub mod ClusterStatus
pub mod Watches
