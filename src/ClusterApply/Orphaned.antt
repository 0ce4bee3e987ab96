-- ===== src/ClusterApply/Orphaned.antt =====
-- About Apply.antt and DeleteWait.antt for resources that are to be orphaned.
use kapp.Prelude.{
  ap, err, panic, out_of_fuel, String, ℕ, Bool, true, false, ◌||◌, List, ◌∷◌, Option, none, some,
  if◌then◌else◌, str_eq, ◌≡◌, refl, ok, Result, str_eq_iff, ◌∙◌, err,
}
use kapp.Resources.Resource.{Resource}
use kapp.ClusterApply.Ops.{ClusterChange, apply_op, apply_delete}
use kapp.ClusterApply.Calls.{
  Run, return, ApiError, Diff, Cluster, Differ, Call, orphan_call, StrategyError, or_fail,
}
use kapp.ClusterApply.Strategies.{
  is_inoperable_resource, annotation_or, delete_strategy_ann_key, delete_strategy, delete_orphan,
  Strategy,
}
use kapp.ClusterApply.Runs.{run_strategy}
use kapp.ClusterApply.Apply.{
  Texts, apply, apply_with, run_chosen, strategy_for, apply_description, reply_to,
}
use kapp.ClusterApply.DeleteWait.{WaitReply, delete_done, orphaned_reply}

-- A namespace that kapp never deletes, or a resource whose annotation says that it is left alone.
abbrev pub is_orphaned : Resource → Bool
is_orphaned res =
    is_inoperable_resource res || str_eq (annotation_or "" delete_strategy_ann_key res) "orphan"

either_test :
    {A : Type 0} (b c : Bool) (x y : A)
    → (b || c) ≡ true
    → (if b then x else if c then x else y) ≡ x
either_test true c x y h = refl
either_test false true x y h = refl
either_test false false x y h = cc

-- The same with a test between them that fails where the second holds.
between_tests :
    {A : Type 0} (b e c : Bool) (x y z : A)
    → (b || c) ≡ true
    → (c ≡ true → e ≡ false)
    → (if b then x else if e then z else if c then x else y) ≡ x
between_tests true e c x y z h k = refl
between_tests false e true x y z h k = rw (k refl) refl
between_tests false e false x y z h k = cc

orphan-plain : (s : String) → str_eq s "orphan" ≡ true → str_eq s "" ≡ false
orphan-plain s h = rw ((str_eq_iff s "orphan").0 h) refl

delete_strategy-orphaned :
    (res : Resource) → is_orphaned res ≡ true → delete_strategy res ≡ ok (delete_orphan res)
unfolding delete_strategy
delete_strategy-orphaned res h =
    between_tests (is_inoperable_resource res) _ _ (ok (delete_orphan res)) _ _ h
      (orphan-plain (annotation_or "" delete_strategy_ann_key res))

delete_done-orphaned :
    (prefix : String) (cluster : Cluster) (res : Resource) (calls : List Call)
    → is_orphaned res ≡ true
    → delete_done prefix cluster res calls ≡ (ok orphaned_reply, calls)
unfolding delete_done
delete_done-orphaned prefix cluster res calls h =
    ap (λ (m : Run WaitReply). m calls)
      (either_test (is_inoperable_resource res) _ (return orphaned_reply) _ h)

module _ (texts : Texts) (cluster : Cluster) (differ : Differ) (polls fuel : ℕ)
    (default_update : String) (d : Diff) where
  reply_to-calls :
      (descr : String) (r : Result StrategyError Unit) (calls : List Call)
      → (reply_to texts descr (r, calls)).1 ≡ calls
  unfolding reply_to
  reply_to-calls descr (ok u) calls = refl
  reply_to-calls descr (err e) calls = refl
  reply_to-calls descr (panic m) calls = refl
  reply_to-calls descr out_of_fuel calls = refl

  or_fail-calls : (o : Option ApiError) (calls : List Call) → (or_fail o calls).1 ≡ calls
  or_fail-calls none calls = refl
  or_fail-calls (some e) calls = refl

  run_chosen-orphan :
      (descr : String) (choice : Result StrategyError Strategy) (calls : List Call)
      → choice ≡ ok (delete_orphan d.existing_resource)
      → (run_chosen texts cluster differ polls fuel default_update d descr choice calls).1
        ≡ orphan_call d.existing_resource ∷ calls
  unfolding run_chosen run_strategy
  run_chosen-orphan descr choice calls h = rw h (reply_to-calls descr _ _ ∙ or_fail-calls _ _)

  -- Where the existing resource of a change is a namespace that is never deleted, or has the annotation
  -- that leaves it alone, an apply that deletes makes one call, which orphans it, and the wait for it
  -- succeeds at once, without a call.
  pub apply-orphaned :
      (c : ClusterChange) (prefix : String) (calls : List Call)
      → is_orphaned d.existing_resource ≡ true
      → apply_op {E = StrategyError} c ≡ ok apply_delete
      → ((apply texts cluster differ polls fuel default_update d c calls).1
          ≡ orphan_call d.existing_resource ∷ calls)
        × (delete_done prefix cluster d.existing_resource calls ≡ (ok orphaned_reply, calls))
  unfolding apply apply_with strategy_for
  apply-orphaned c prefix calls h op = (
    rw op (
        run_chosen-orphan (apply_description c apply_delete) (delete_strategy d.existing_resource)
          calls (delete_strategy-orphaned d.existing_resource h)),
    delete_done-orphaned prefix cluster d.existing_resource calls h,
  )
