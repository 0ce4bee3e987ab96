-- ===== src/ClusterApply/WaitTests.antt =====
-- The theorems about converged resources applied to concrete ones.
use kapp.Prelude.{String, true, false, [], ◌∷◌, none, inl, ◌≡◌, refl, ◌↔◌, All, ok, ◌&&◌}
use kapp.Resources.Resource.{Resource}
use kapp.Waiters.State.{in_progress, succeeded, IsSuccess}
use kapp.Waiters.Typed.{TypedObjs}
use kapp.ClusterApply.Converged.{Reply, is_done_applying, of_children}
use kapp.ClusterApply.Children.{Children, IsFailure, Some, of_children_decides}
use kapp.ClusterApply.Factories.{WaitingEnv, ConvergedResourceFactory, new_converged_resource}
use kapp.ClusterApply.Deleted.{is_done_applying-deleting}
use kapp.Waiters.Tests.{deployment_res, late}

abbrev leaving : Resource
leaving = record deployment_res { is_deleting = true; finalizers = "kapp/test" ∷ [] }

abbrev nothing_typed : TypedObjs
nothing_typed = record {
  deployment = λ res. inl "no object";
  replica_set = λ res. inl "no object";
  unchecked_replica_set = λ res. inl "no object";
  stateful_set = λ res. inl "no object";
  daemon_set = λ res. inl "no object";
  job = λ res. inl "no object";
  pod = λ res. inl "no object";
  service = λ res. inl "no object";
  app = λ res. inl "no object";
  package_install = λ res. inl "no object";
  package_repository = λ res. inl "no object";
}

abbrev env : WaitingEnv
env = record {
  custom = late;
  typed = nothing_typed;
  app_version = "kappctrl.k14s.io/v1alpha1";
  package_version = "packaging.carvel.dev/v1alpha1";
}

abbrev factory : ConvergedResourceFactory
factory = record { wait_rules = []; ignore_failing_api_services = false }

abbrev plain : String → String
plain s = s

abbrev leaving_reply : Reply
leaving_reply = record {
  state = in_progress "Waiting on finalizers: kapp/test";
  desc_msgs = " ^ Waiting on finalizers: kapp/test" ∷ [];
  error = none;
}

leaving_run :
    is_done_applying {E = String} plain (new_converged_resource env factory leaving none) []
    ≡ ok (leaving_reply, [])
unfolding is_done_applying new_converged_resource
leaving_run = refl

is_done_applying-deleting_example :
    (leaving_reply.state.done && leaving_reply.state.successful) ≡ false
is_done_applying-deleting_example =
    is_done_applying-deleting {E = String} env factory plain leaving none [] (leaving_reply, [])
      refl leaving_run

abbrev two_children : Children
two_children = (deployment_res, succeeded "") ∷ (leaving, in_progress "Deleting") ∷ []

of_children_decides_example :
    (IsSuccess (of_children two_children) ↔ All (λ c. IsSuccess c.1) two_children)
    × (IsFailure (of_children two_children) ↔ Some IsFailure two_children)
of_children_decides_example = of_children_decides two_children
