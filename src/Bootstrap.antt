-- ===== src/Bootstrap.antt =====
-- internal/bootstrap: the git checkouts of a workspace that may outlive its pod.
pub mod Git
pub mod Reconcile
pub mod Branch
pub mod World
pub mod Resume
pub mod Claim
pub mod Namespace
pub mod Push
pub mod Skills
