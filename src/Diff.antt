-- ===== src/Diff.antt =====
-- pkg/kapp/diff: the operation of a change, and the set of changes.
pub mod Change
pub mod ChangeSet
pub mod Collapsed
pub mod Tests
