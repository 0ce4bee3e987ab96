-- ===== src/Waiters.antt =====
-- resourcesmisc: when is a resource of a kind done applying.
pub mod State
pub mod Status
pub mod Typed
pub mod Which
pub mod Workloads
pub mod Kinds
pub mod Custom
pub mod Unsuccessful
pub mod Rollout
pub mod Deployed
pub mod Fresh
pub mod Shadowed
pub mod Tests
