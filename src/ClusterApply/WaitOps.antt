-- ===== src/ClusterApply/WaitOps.antt =====
-- About cluster_change.go, `WaitOp` and `MarkNeedsWaiting`.
use kapp.Prelude.{
  ◌≡◌, ◌≢◌, refl, sym, ap, ◌∙◌, Bool, true, false, not, ◌&&◌, ◌||◌, inl, inr, ok, ok-injective,
  Bool-cases, if◌then◌else◌,
}
use kapp.DiffGraph.Errors.{Error}
use kapp.ClusterApply.Ops.{
  DiffOp, change_add, change_delete, change_update, change_keep, change_exists, change_noop,
  change_unknown, DiffChange, WaitOp, wait_ok, wait_delete, wait_noop, ClusterChange, wait_op,
  wait_op_of, wait_for_kept, has_annotation, disable_wait_ann_key, mark_needs_waiting,
}
use kapp.ClusterApply.Calculate.{is_wait_noop}

-- The operation is one of those of `ctldiff.ChangeOp`.
abbrev pub IsKnown : DiffOp → Type 0
IsKnown (change_unknown op) = ⊥
IsKnown _ = Unit {0}

-- The cluster change is waited for.
abbrev pub IsWaited : ClusterChange → Type 0
IsWaited c = (w : WaitOp) × (wait_op {E = Error} c ≡ ok w) × (is_wait_noop w ≡ false)

if-any :
    {A : Type 0} (a b c : Bool) (x y : A)
    → (a || b || c) ≡ true
    → (if a then x else if b then x else if c then x else y) ≡ x
if-any true b c x y h = refl
if-any false true c x y h = refl
if-any false false true x y h = refl
if-any false false false x y h = cc

if-none :
    {A : Type 0} (a b c : Bool) (x y : A)
    → (a || b || c) ≡ false
    → (if a then x else if b then x else if c then x else y) ≡ y
if-none true b c x y h = cc
if-none false true c x y h = cc
if-none false false true x y h = cc
if-none false false false x y h = refl

-- A cluster change is skipped by the first tests of `WaitOp`.
abbrev skipped : ClusterChange → Bool
skipped c =
    not c.opts.wait
    || (not c.opts.wait_ignored && c.change.is_ignored)
    || has_annotation disable_wait_ann_key c.change.new_or_existing_resource

wait_op-skipped : (c : ClusterChange) → skipped c ≡ true → wait_op {E = Error} c ≡ ok wait_noop
unfolding wait_op
wait_op-skipped c h =
    if-any (not c.opts.wait) (not c.opts.wait_ignored && c.change.is_ignored)
      (has_annotation disable_wait_ann_key c.change.new_or_existing_resource) _ _ h

wait_op-other :
    (c : ClusterChange)
    → skipped c ≡ false
    → wait_op {E = Error} c ≡ wait_op_of c.marked_needs_waiting c.change c.change.op
unfolding wait_op
wait_op-other c h =
    if-none (not c.opts.wait) (not c.opts.wait_ignored && c.change.is_ignored)
      (has_annotation disable_wait_ann_key c.change.new_or_existing_resource) _ _ h

wait_op_of-known :
    (marked : Bool) (change : DiffChange) (op : DiffOp)
    → IsKnown op
    → (w : WaitOp) × (wait_op_of {E = Error} marked change op ≡ ok w)
unfolding wait_op_of wait_for_kept
wait_op_of-known marked change change_add k = (wait_ok, refl)
wait_op_of-known marked change change_update k = (wait_ok, refl)
wait_op_of-known marked change change_delete k = (wait_delete, refl)
wait_op_of-known marked change change_exists k = (wait_ok, refl)
wait_op_of-known marked change change_noop k = (wait_noop, refl)
wait_op_of-known marked change (change_unknown op) k = absurd k
wait_op_of-known true change change_keep k = (wait_ok, refl)
wait_op_of-known false change change_keep k = kept change.original_state
  where
    kept : (s : _) → (w : WaitOp) × (wait_for_kept {E = Error} false s ≡ ok w)
    kept (inl e) = (wait_ok, refl)
    kept (inr state) = (_, refl)

wait_op_of-marked :
    (marked : Bool) (change : DiffChange) (op : DiffOp) (w : WaitOp)
    → wait_op_of {E = Error} marked change op ≡ ok w
    → is_wait_noop w ≡ false
    → (w' : WaitOp) × (wait_op_of {E = Error} true change op ≡ ok w') × (is_wait_noop w' ≡ false)
unfolding wait_op_of wait_for_kept
wait_op_of-marked marked change change_add w h k = (wait_ok, refl, refl)
wait_op_of-marked marked change change_update w h k = (wait_ok, refl, refl)
wait_op_of-marked marked change change_delete w h k = (wait_delete, refl, refl)
wait_op_of-marked marked change change_exists w h k = (wait_ok, refl, refl)
wait_op_of-marked marked change change_noop w h k = (w, h, k)
wait_op_of-marked marked change change_keep w h k = (wait_ok, refl, refl)
wait_op_of-marked marked change (change_unknown op) w h k = (w, h, k)

pub wait_op-known :
    (c : ClusterChange) → IsKnown c.change.op → (w : WaitOp) × (wait_op {E = Error} c ≡ ok w)
wait_op-known c k = elim (Bool-cases (skipped c)) [
  | inl skip ↦ (wait_noop, wait_op-skipped c skip)
  | inr other ↦
      let (w, e) = wait_op_of-known c.marked_needs_waiting c.change c.change.op k in
      (w, wait_op-other c other ∙ e)
]

-- A change that is waited for is waited for when it is marked.
pub IsWaited-marked : (c : ClusterChange) → IsWaited c → IsWaited (mark_needs_waiting c)
unfolding mark_needs_waiting
IsWaited-marked c (w, e, busy) = elim (Bool-cases (skipped c)) [
  | inl skip ↦
      absurd (true-false (ap is_wait_noop (ok-injective (sym (wait_op-skipped c skip) ∙ e)) ∙ busy))
  | inr other ↦
      let (w', e', busy') =
        wait_op_of-marked c.marked_needs_waiting c.change c.change.op w
          (sym (wait_op-other c other) ∙ e) busy in
      (w', wait_op-other (record c { marked_needs_waiting = true }) other ∙ e', busy')
]
  where
    true-false : true ≢ false
    true-false e = cc
