-- ===== src/Lib.antt =====
-- kapp.
--
-- kapp deploys a set of Kubernetes resources as one app. It compares the wanted resources with those
-- on the cluster, orders the changes by rules, and applies them and waits for them in that order. The
-- development models the changes and their order with what they read of resources and configuration, the
-- loop that applies changes and waits for them, the strategies by which a single change is applied, and
-- what kapp takes a resource for that it waits for.
--
-- Parts and files (paths from the repository's root):
--   Resources    pkg/kapp/resources: Json is a decoded object, Resource is resource.go (Resource,
--                ResourceImpl), Path is mod_path.go, Matchers is matchers.go and
--                matcher_empty_field.go (the Matches methods are matches, any_matches, and_matches and
--                check_empty), Unique is unique_resources.go. Mods holds the modifications:
--                Remove is mod_field_remove.go, Append mod_string_map_append.go, RefSet
--                mod_object_ref_set.go, Copy mod_field_copy.go, and Update what they share.
--   Config       pkg/kapp/config: Matchers is resource_matchers.go (AsResourceMatcher), Bindings the
--                bindings of config.go and conf.go.
--   Waiters      pkg/kapp/resourcesmisc: State is done_apply_state.go, Status conditions.go and
--                deleting.go, Typed the objects that the waiters read, Which the tests of their New
--                functions, Workloads and Kinds their IsDoneApplying, Custom custom_waiting_resource.go.
--                Unsuccessful, Rollout, Deployed, Fresh and Shadowed hold proofs.
--   Diff         pkg/kapp/diff: Change is change.go, ChangeSet change_set.go.
--   DiffGraph    pkg/kapp/diffgraph: Group is change_group.go, Rule change_rule.go, GroupName
--                change_group_name.go, Change change.go (Groups, AllRules, ApplicableRules), Graph the
--                queries and searches of change.go and change_graph.go, Build is NewChangeGraph, Blocked
--                is blocked_changes.go and Linearized. The other files hold proofs: Paths says what
--                waiting through others means, Cycles and Search are about the two searches, Matching to
--                Passes about the edges that a pass adds, NewGraph about the whole, Rounds to Linearize
--                about Linearized, Placeholders and RuleText about texts.
--   ClusterApply pkg/kapp/clusterapply: Ops is cluster_change.go (ApplyOp, WaitOp), Applying and Waiting
--                are the loops of applying_changes.go and waiting_changes.go that receive results,
--                ChangeSet is ClusterChangeSet.Apply of cluster_change_set.go, Steps the runs of it.
--                Calculate is Calculate and markChangesToWait of it. Receiving to Waited hold the
--                invariant of the runs, Promises to Complete are about their ends, Pruned to Ordered
--                about the graph that Calculate keeps, WaitOps to Marking about what it marks,
--                Returns about its end. Converged is converged_resource.go, Factories
--                converged_resource_factory.go; Deleted and Children are about them. Strategies is the
--                choice of a strategy in add_or_update_change.go and delete_change.go, Runs the
--                strategies of these and of exists_change.go, Calls the calls that they make, with
--                pkg/kapp/util/retry.go, Apply is Apply of cluster_change.go, DeleteWait IsDoneApplying of
--                delete_change.go. Made, Making and Recalculating say which calls a run makes, and
--                Deletions, Updates, Saved, Done, Ends, Ended and Orphaned are about the
--                strategies.
--
-- The graph that DiffGraph builds is what ClusterApply runs through: a round of ApplyingChanges.Apply
-- takes the changes that BlockedChanges leaves unblocked, and a round of WaitingChanges.WaitForAny
-- unblocks those that are done. What is done is what the waiters say that ConvergedResource asks. A
-- strategy saves what Diff compares, and compares again where the cluster has a newer resource.
--
-- State. Go's pointers to changes are numbers, and a graph is a list of them with a memory, a function
-- from numbers to changes; an assignment to WaitingFor is an update of that function. Go's maps that
-- serve as sets are lists of their keys; a map that is visited in an order is a list of pairs in that
-- order. A modification of an object in place is a function to the changed object. The timers of custom
-- waiting rules, a global map, are passed from each wait to the next. Errors are values of a type of each
-- part, a panic is a result of its own.
--
-- Fuel. The two searches and markChangesToWait take fuel, one more than the changes of the graph: a walk
-- along a graph without cycles meets no change twice, and checkCycles turns back at a change that it is
-- visiting. Linearized takes two rounds more than the changes: each round but the last leaves fewer
-- blocked. The loop in which a replacement waits until the resource is gone takes fuel too, since only the
-- cluster can end it. Code that runs out of fuel returns out_of_fuel, which no Go code does.
--
-- Runs. For the loop that applies changes, what the cluster answers is not modelled: a step of
-- ClusterApply.Steps takes any results, in any order in which they arrive, for the changes of the round,
-- and whether the time is over. A trace, the latest event first, says which changes were attempted, which
-- were done, and which asked early to unblock the others. A step needs no fuel, and nothing is claimed of
-- how many steps a run takes. A run of a strategy keeps the calls that it made, and each answer of the
-- cluster is any function of the calls before it.
--
-- Parameters. The test for a qualified name and its message for a length limit, and the YAML round trip
-- by which a custom resource definition is read, are fields of Vendored; the conversions of objects to
-- typed ones are fields of TypedObjs; the clock, time.ParseDuration and the run of a ytt rule are fields of
-- CustomEnv; Regexps is the package regexp. The query for associated resources, the equality of
-- resources, the coloring of texts, the cluster, the comparison of two resources and the number of times
-- that the package wait polls are arguments. Nothing is assumed of them.
--
-- Not modelled: logging, printing and the caches of the groups and rules of a change (they keep values
-- of functions of fields that never change); the access to the cluster; the command line; the textual
-- differences, the history and the versions of resources; the records of apps; and the checks before a
-- deployment.
pub mod Prelude
pub mod Resources
pub mod Config
pub mod Waiters
pub mod Diff
pub mod DiffGraph
pub mod ClusterApply
