-- ===== src/ClusterApply.antt =====
-- pkg/kapp/clusterapply: applying changes and waiting for them in the order of the graph.
pub mod Ops
pub mod Applying
pub mod Waiting
pub mod ChangeSet
pub mod Steps
pub mod Receiving
pub mod Collecting
pub mod Invariant
pub mod Kept
pub mod Quiet
pub mod Waited
pub mod Promises
pub mod Consistent
pub mod Complete
pub mod Calculate
pub mod Pruned
pub mod Marked
pub mod Ordered
pub mod WaitOps
pub mod Needs
pub mod Marking
pub mod Returns
pub mod Tests
pub mod Converged
pub mod Factories
pub mod Deleted
pub mod Children
pub mod WaitTests
pub mod Calls
pub mod Strategies
pub mod Runs
pub mod Made
pub mod Making
pub mod Recalculating
pub mod Deletions
pub mod Updates
pub mod Saved
pub mod Done
pub mod Ends
pub mod Ended
pub mod Apply
pub mod DeleteWait
pub mod Orphaned
pub mod StrategyTests
