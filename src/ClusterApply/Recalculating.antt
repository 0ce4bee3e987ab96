-- ===== src/ClusterApply/Recalculating.antt =====
-- The calls of the loops of Runs.antt that recalculate a change, for any P that permits those that the
-- strategies share.
use kapp.Prelude.{
  String, ℕ, zero, suc, Bool, true, false, not, List, [], ◌∷◌, Option, none, some, ◌≡◌, refl, ◌⊎◌,
  inl, inr, str_eq, arith,
}
use kapp.Resources.Resource.{Resource}
use kapp.ClusterApply.Ops.{
  DiffOp, change_add, change_update, change_noop, change_delete, change_keep, change_exists,
  change_unknown,
}
use kapp.ClusterApply.Calls.{
  ApiError, Diff, Cluster, Differ, Call, update_call, get_call, Run, ◌>>=◌, fail, api,
}
use kapp.ClusterApply.Runs.{
  is_update, recalculate, resolve_update_conflict, update_after_create_conflict, only_change,
  calculate_with, unless_conflict, update_approved, update_created, after_create, update_or,
}
use kapp.ClusterApply.Made.{Made, no_more, Makes, Made-trans, Made-one, Made-if}
use kapp.ClusterApply.Making.{
  Recalculated, Permits, Makes-record_applied_resource, Adopts, Approves,
}

not-false : (b : Bool) → not b ≡ false → b ≡ true
not-false b h = ground arith

module _ (cluster : Cluster) (differ : Differ) (d : Diff) (polls : ℕ)
    (P : List Call → Call → Type 0) (p : Permits cluster differ d P) where
  Makes-only_change :
      (res latest : Resource) (calls : List Call) (f : Diff → Run Unit) (x : String ⊎ List Diff)
      → cluster.on_get calls res ≡ inr latest
      → differ.calculate latest d.applied_resource ≡ x
      → ((c : Diff)
          → Recalculated cluster differ d res calls c
          → Made P (get_call res ∷ calls) (f c (get_call res ∷ calls)).1)
      → Made P
          (get_call res ∷ calls)
          ((only_change cluster differ polls d x >>= f) (get_call res ∷ calls)).1
  unfolding only_change
  Makes-only_change res latest calls f (inl e) g q h = no_more
  Makes-only_change res latest calls f (inr []) g q h = no_more
  Makes-only_change res latest calls f (inr (c ∷ [])) g q h =
      h c (record { latest = latest; got = g; only = q })
  Makes-only_change res latest calls f (inr (c ∷ c' ∷ cs)) g q h = no_more

  Makes-calculate_with :
      (res : Resource) (calls : List Call) (f : Diff → Run Unit) (a : ApiError ⊎ Resource)
      → cluster.on_get calls res ≡ a
      → ((c : Diff)
          → Recalculated cluster differ d res calls c
          → Made P (get_call res ∷ calls) (f c (get_call res ∷ calls)).1)
      → Made P
          (get_call res ∷ calls)
          ((calculate_with cluster differ polls d a >>= f) (get_call res ∷ calls)).1
  unfolding calculate_with
  Makes-calculate_with res calls f (inl e) g h = no_more
  Makes-calculate_with res calls f (inr latest) g h =
      Makes-only_change res latest calls f _ g refl h

  Makes-recalculate :
      (res : Resource) (f : Diff → Run Unit) (calls : List Call)
      → ((c : Diff)
          → Recalculated cluster differ d res calls c
          → Made P (get_call res ∷ calls) (f c (get_call res ∷ calls)).1)
      → Made P calls ((recalculate cluster differ polls d res >>= f) calls).1
  unfolding recalculate
  Makes-recalculate res f calls h =
      Made-trans P calls (get_call res ∷ calls) _ (Made-one P _ calls (p.gets calls res))
        (Makes-calculate_with res calls f _ refl h)

  -- What follows an update: `fallback` is only asked of a refusal that is no conflict.
  pub Makes-unless_conflict :
      (next fallback : ApiError → Run Unit) (calls : List Call) (a : ApiError ⊎ Resource)
      → ((e : ApiError) → Makes P (next e))
      → ((e : ApiError) → a ≡ inl e → Made P calls (fallback e calls).1)
      → Made P calls (unless_conflict cluster differ polls d next fallback a calls).1
  unfolding unless_conflict
  Makes-unless_conflict next fallback calls (inr saved) h k =
      Makes-record_applied_resource cluster differ d polls P p saved calls
  Makes-unless_conflict next fallback calls (inl e) h k =
      Made-if P e.is_conflict _ _ calls (λ _. h e calls) (λ _. k e refl)

  Makes-update_approved :
      Approves cluster differ d P
      → (orig : ApiError) (fallback : ApiError → Run Unit) (next : Run Unit) (calls : List Call)
        (c : Diff)
      → Makes P next
      → ((e : ApiError) (res : Resource) (calls : List Call)
          → cluster.on_update calls res ≡ inl e
          → Made P (update_call res ∷ calls) (fallback e (update_call res ∷ calls)).1)
      → Recalculated cluster differ d d.existing_resource calls c
      → Made P
          (get_call d.existing_resource ∷ calls)
          (update_approved cluster differ polls d orig fallback next c
            (get_call d.existing_resource ∷ calls)).1
  unfolding update_approved
  Makes-update_approved approves orig fallback next calls c h k r =
      Made-if P (not (is_update c.change.op)) _ _ _ (λ _. no_more)
        (λ u.
          Made-if P (not (str_eq c.minimal_md5 d.minimal_md5)) _ _ _ (λ _. no_more)
            (λ m.
              Made-trans P _ _ _
                (Made-one P (update_call c.new_resource) _
                  (approves calls c r (not-false _ u) (not-false _ m)))
                (Makes-unless_conflict (λ _. next) fallback _ _ (λ _. h) (λ e q. k e _ _ q))))

  pub Makes-resolve_update_conflict :
      Approves cluster differ d P
      → (tries : ℕ) (orig : ApiError) (fallback : ApiError → Run Unit)
      → ((e : ApiError) (res : Resource) (calls : List Call)
          → cluster.on_update calls res ≡ inl e
          → Made P (update_call res ∷ calls) (fallback e (update_call res ∷ calls)).1)
      → Makes P (resolve_update_conflict cluster differ polls d tries orig fallback)
  unfolding resolve_update_conflict
  Makes-resolve_update_conflict approves zero orig fallback k calls = no_more
  Makes-resolve_update_conflict approves (suc tries) orig fallback k calls =
      Makes-recalculate d.existing_resource _ calls (λ c r.
        Makes-update_approved approves orig fallback _ calls c
          (Makes-resolve_update_conflict approves tries orig fallback k) k r)

  Makes-update_created :
      Adopts cluster differ d P
      → (allow_noop : Bool) (next : ApiError → Run Unit) (calls : List Call) (c : Diff)
        (op : DiffOp)
      → ((e : ApiError) → Makes P (next e))
      → Recalculated cluster differ d d.new_resource calls c
      → Made P
          (get_call d.new_resource ∷ calls)
          (update_created cluster differ polls d allow_noop next c op
            (get_call d.new_resource ∷ calls)).1
  unfolding update_created
  Makes-update_created adopts allow_noop next calls c change_noop h r =
      Made-if P allow_noop _ _ _ (λ _. no_more) (λ _. no_more)
  Makes-update_created adopts allow_noop next calls c change_update h r =
      Made-trans P _ _ _ (Made-one P (update_call c.new_resource) _ (adopts calls c r))
        (Makes-unless_conflict next (λ e. fail (api e)) _ _ h (λ e q. no_more))
  Makes-update_created adopts allow_noop next calls c change_add h r = no_more
  Makes-update_created adopts allow_noop next calls c change_delete h r = no_more
  Makes-update_created adopts allow_noop next calls c change_keep h r = no_more
  Makes-update_created adopts allow_noop next calls c change_exists h r = no_more
  Makes-update_created adopts allow_noop next calls c (change_unknown op) h r = no_more

  pub Makes-update_after_create_conflict :
      Adopts cluster differ d P
      → (tries : ℕ) (allow_noop : Bool) (last : Option ApiError)
      → Makes P (update_after_create_conflict cluster differ polls d tries allow_noop last)
  unfolding update_after_create_conflict
  Makes-update_after_create_conflict adopts zero allow_noop last calls = no_more
  Makes-update_after_create_conflict adopts (suc tries) allow_noop last calls =
      Makes-recalculate d.new_resource _ calls (λ c r.
        Makes-update_created adopts allow_noop _ calls c c.change.op
          (λ e. Makes-update_after_create_conflict adopts tries allow_noop (some e)) r)

  pub Makes-after_create :
      Adopts cluster differ d P
      → (allow_noop : Bool) (a : ApiError ⊎ Resource)
      → Makes P (after_create cluster differ polls d allow_noop a)
  unfolding after_create
  Makes-after_create adopts allow_noop (inr saved) calls =
      Makes-record_applied_resource cluster differ d polls P p saved calls
  Makes-after_create adopts allow_noop (inl e) calls =
      Made-if P e.is_already_exists _ _ calls
        (λ _. Makes-update_after_create_conflict adopts 10 allow_noop none calls) (λ _. no_more)

  -- Where the first update may be made.
  pub Makes-update_or :
      Approves cluster differ d P
      → (fallback : ApiError → Run Unit) (res : Resource) (calls : List Call)
      → P calls (update_call res)
      → ((e : ApiError) (res : Resource) (calls : List Call)
          → cluster.on_update calls res ≡ inl e
          → Made P (update_call res ∷ calls) (fallback e (update_call res ∷ calls)).1)
      → Made P calls (update_or cluster differ polls d fallback res calls).1
  unfolding update_or
  Makes-update_or approves fallback res calls h k =
      Made-trans P _ _ _ (Made-one P (update_call res) calls h) (
        Makes-unless_conflict _ fallback _ _
          (λ e. Makes-resolve_update_conflict approves 10 e fallback k) (λ e q. k e res calls q))
