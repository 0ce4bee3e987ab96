-- ===== src/DiffGraph.antt =====
-- pkg/kapp/diffgraph: the order in which changes are applied.
pub mod Errors
pub mod Group
pub mod Rule
pub mod GroupName
pub mod Change
pub mod Graph
pub mod Paths
pub mod Build
pub mod Blocked
pub mod PathLaws
pub mod Cycles
pub mod Search
pub mod Matching
pub mod Collecting
pub mod Edges
pub mod Optional
pub mod Extends
pub mod Required
pub mod Dedup
pub mod Passes
pub mod NewGraph
pub mod Rounds
pub mod Layers
pub mod Linearize
pub mod Placeholders
pub mod RuleText
pub mod Samples
pub mod Tests
