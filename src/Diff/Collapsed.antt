-- ===== src/Diff/Collapsed.antt =====
-- About change_set.go: what collapseChangesWithSameUID leaves.
use kapp.Prelude.{
  String, Bool, true, false, not, ◌&&◌, ◌||◌, ◌==◌, ◌≤◌, List, [], ◌∷◌, ◌⊎◌, inl, inr,
  if◌then◌else◌, str_eq, str_eq_iff, is_empty, elem_text, length, select, ◌≡◌, refl, ◌∙◌, sym, ap,
  subst, arith, Bool-cases, inr-injective, ==_iff,
}
use kapp.Resources.Resource.{Resource}
use kapp.Diff.Change.{ChangeImpl}
use kapp.Diff.ChangeSet.{
  ChangeSetError, has_uid, uid_of, uids, is_delete, collapse_uid, collapse_all, collapse, and_then,
}

module _ {A : Type 0} where
  select-fewer :
      (p q : A → Bool) (xs : List A) → length (select p (select q xs)) ≤ length (select p xs)
  select-fewer p q [] = omega arith
  select-fewer p q (x ∷ xs) = elim (Bool-cases (q x)) [
    | inl e ↦ elim (Bool-cases (p x)) [
      | inl f ↦ rw (e, f) (omega (arith, select-fewer p q xs))
      | inr f ↦ rw (e, f) (select-fewer p q xs)
    ]
    | inr e ↦ elim (Bool-cases (p x)) [
      | inl f ↦ rw (e, f) (omega (arith, select-fewer p q xs))
      | inr f ↦ rw (e, f) (select-fewer p q xs)
    ]
  ]

  -- Without what is both, what is p is not q, and all that is not q is left.
  select-p :
      (p q : A → Bool) (xs : List A)
      → select p (select (λ x. not (p x && q x)) xs) ≡ select (λ x. not (q x)) (select p xs)
  select-p p q [] = refl
  select-p p q (x ∷ xs) = elim (Bool-cases (p x)) [
    | inl e ↦ elim (Bool-cases (q x)) [
      | inl f ↦ rw (e, f) (select-p p q xs)
      | inr f ↦ rw (e, f, e) (ap (λ rest. x ∷ rest) (select-p p q xs))
    ]
    | inr e ↦ rw (e, e) (select-p p q xs)
  ]

  select-not_q :
      (p q : A → Bool) (xs : List A)
      → select (λ x. not (q x)) (select (λ x. not (p x && q x)) xs) ≡ select (λ x. not (q x)) xs
  select-not_q p q [] = refl
  select-not_q p q (x ∷ xs) = elim (Bool-cases (p x)) [
    | inl e ↦ elim (Bool-cases (q x)) [
      | inl f ↦ rw (e, f) (select-not_q p q xs)
      | inr f ↦ rw (e, f, f) (ap (λ rest. x ∷ rest) (select-not_q p q xs))
    ]
    | inr e ↦ elim (Bool-cases (q x)) [
      | inl f ↦ rw (e, f) (select-not_q p q xs)
      | inr f ↦ rw (e, f) (ap (λ rest. x ∷ rest) (select-not_q p q xs))
    ]
  ]

module _ (has_changes : Resource → Resource → Bool) where
  abbrev kept : ChangeImpl → Bool
  kept c = not (is_delete has_changes c)

  -- What the collapse of one UID, and of several, leaves.
  record Collapses (before after : List ChangeImpl) : Type 0 where
    fewer :
        (uid : String) → length (select (has_uid uid) after) ≤ length (select (has_uid uid) before)
    same_kept : select kept after ≡ select kept before

  Collapses-refl : (cs : List ChangeImpl) → Collapses cs cs
  Collapses-refl cs = record { fewer = λ uid. omega arith; same_kept = refl }

  Collapses-trans : (a b c : List ChangeImpl) → Collapses a b → Collapses b c → Collapses a c
  Collapses-trans a b c f g = record {
    fewer = λ uid. omega (arith, f.fewer uid, g.fewer uid);
    same_kept = g.same_kept ∙ f.same_kept;
  }

  -- The collapse of a UID, by the tests that it makes.
  collapse_uid-tests :
      (uid : String) (cs ds : List ChangeImpl) (one one_delete one_kept : Bool)
      (e e' : ChangeSetError)
      → length (select (has_uid uid) cs) == 1 ≡ one
      → length (select kept (select (has_uid uid) cs)) == 1 ≡ one_kept
      → (if one
          then inr cs
          else if not one_delete
          then inl e
          else if not one_kept
          then inl e'
          else inr (select (λ c. not (has_uid uid c && is_delete has_changes c)) cs))
        ≡ inr ds
      → Collapses cs ds × (length (select (has_uid uid) ds) ≤ 1)
  collapse_uid-tests uid cs ds true one_delete one_kept e e' h k r =
      subst (λ (xs : List ChangeImpl). Collapses cs xs × (length (select (has_uid uid) xs) ≤ 1))
        (inr-injective r) (Collapses-refl cs, omega (arith, (==_iff _ _).0 h))
  collapse_uid-tests uid cs ds false false one_kept e e' h k r = cc
  collapse_uid-tests uid cs ds false true false e e' h k r = cc
  collapse_uid-tests uid cs ds false true true e e' h k r =
      subst (λ (xs : List ChangeImpl). Collapses cs xs × (length (select (has_uid uid) xs) ≤ 1))
        (inr-injective r)
        (
          record {
            fewer = λ v. select-fewer (has_uid v) _ cs;
            same_kept = select-not_q (has_uid uid) (is_delete has_changes) cs;
          },
          rw (select-p (has_uid uid) (is_delete has_changes) cs) (omega (arith, (==_iff _ _).0 k)),
        )

  collapse_uid-Collapses :
      (uid : String) (cs ds : List ChangeImpl)
      → collapse_uid has_changes uid cs ≡ inr ds
      → Collapses cs ds × (length (select (has_uid uid) ds) ≤ 1)
  unfolding collapse_uid
  collapse_uid-Collapses uid cs ds h = collapse_uid-tests uid cs ds _ _ _ _ _ refl refl h

  and_then-inr :
      (f : List ChangeImpl → ChangeSetError ⊎ List ChangeImpl)
      (r : ChangeSetError ⊎ List ChangeImpl) (end : List ChangeImpl)
      → and_then f r ≡ inr end
      → (middle : List ChangeImpl) × (r ≡ inr middle) × (f middle ≡ inr end)
  and_then-inr f (inl e) end h = cc
  and_then-inr f (inr m) end h = (m, refl, h)

  collapse_all-Collapses :
      (us : List String) (cs ds : List ChangeImpl)
      → collapse_all has_changes us cs ≡ inr ds
      → Collapses cs ds
        × ((uid : String) → elem_text uid us ≡ true → length (select (has_uid uid) ds) ≤ 1)
  unfolding collapse_all
  collapse_all-Collapses [] cs ds h = (
    subst (λ (xs : List ChangeImpl). Collapses cs xs) (inr-injective h) (Collapses-refl cs),
    λ uid k. cc,
  )
  collapse_all-Collapses (u ∷ us) cs ds h =
      let (ms, e, k) =
        and_then-inr (collapse_all has_changes us) (collapse_uid has_changes u cs) ds h in
      let (f, one) = collapse_uid-Collapses u cs ms e in
      let (g, ones) = collapse_all-Collapses us ms ds k in
      (
        Collapses-trans cs ms ds f g,
        λ uid q. elim (Bool-cases (str_eq uid u)) [
          | inl s ↦
              subst (λ v. length (select (has_uid v) ds) ≤ 1) (sym ((str_eq_iff uid u).0 s))
                (omega (arith, one, g.fewer u))
          | inr s ↦ ones uid (rw s at q)
        ],
      )

  no_uid : (uid v : String) → is_empty uid ≡ false → is_empty v ≡ true → str_eq v uid ≡ false
  no_uid uid v h k = elim (Bool-cases (str_eq v uid)) [
    | inr n ↦ n
    | inl y ↦ cc (subst (λ t. is_empty t ≡ true) ((str_eq_iff v uid).0 y) k)
  ]

  not_same :
      (uid v : String) (vs : List String)
      → elem_text uid vs ≡ false
      → elem_text v vs ≡ true
      → str_eq v uid ≡ false
  not_same uid v vs h k = elim (Bool-cases (str_eq v uid)) [
    | inr n ↦ n
    | inl y ↦ cc (subst (λ t. elem_text t vs ≡ true) ((str_eq_iff v uid).0 y) k)
  ]

  other_way : (s t : String) → str_eq s t ≡ false → str_eq t s ≡ false
  other_way s t h = elim (Bool-cases (str_eq t s)) [
    | inr n ↦ n
    | inl y ↦ cc ((str_eq_iff s t).1 (sym ((str_eq_iff t s).0 y)))
  ]

  -- A UID that is not listed is none of a change's.
  unlisted :
      (uid : String) (seen : List String) (cs : List ChangeImpl)
      → is_empty uid ≡ false
      → elem_text uid seen ≡ false
      → elem_text uid (uids seen cs) ≡ false
      → length (select (has_uid uid) cs) ≡ 0
  unfolding uids has_uid
  unlisted uid seen [] h k l = refl
  unlisted uid seen (c ∷ cs) h k l = elim (Bool-cases (is_empty (uid_of c))) [
    | inl e ↦ rw (no_uid uid (uid_of c) h e) (unlisted uid seen cs h k (rw (e, uids) at l))
    | inr e ↦ elim (Bool-cases (elem_text (uid_of c) seen)) [
      | inl f ↦
          rw (not_same uid (uid_of c) seen k f) (unlisted uid seen cs h k (rw (e, f, uids) at l))
      | inr f ↦
          of_head (str_eq uid (uid_of c)) refl (unlisted uid (uid_of c ∷ seen) cs h)
            (rw (e, f, uids) at l)
    ]
  ]
    where
      of_head :
          (b : Bool)
          → str_eq uid (uid_of c) ≡ b
          → (elem_text uid (uid_of c ∷ seen) ≡ false
              → elem_text uid (uids (uid_of c ∷ seen) cs) ≡ false
              → length (select (has_uid uid) cs) ≡ 0)
          → (str_eq uid (uid_of c) || elem_text uid (uids (uid_of c ∷ seen) cs)) ≡ false
          → length (select (has_uid uid) (c ∷ cs)) ≡ 0
      of_head true n next m = cc (rw n at m)
      of_head false n next m = rw (has_uid, other_way uid (uid_of c) n) (next (rw n k) (rw n at m))

  -- Where the collapse ends without an error, no UID has more than one change left, and all changes but
  -- deletes are left, in their order.
  pub collapse_unique :
      (cs ds : List ChangeImpl)
      → collapse has_changes cs ≡ inr ds
      → ((uid : String) → is_empty uid ≡ false → length (select (has_uid uid) ds) ≤ 1)
        × (select (λ c. not (is_delete has_changes c)) ds
            ≡ select (λ c. not (is_delete has_changes c)) cs)
  unfolding collapse
  collapse_unique cs ds h =
      let (f, ones) = collapse_all-Collapses (uids [] cs) cs ds h in
      (
        λ uid e. elim (Bool-cases (elem_text uid (uids [] cs))) [
          | inl y ↦ ones uid y
          | inr n ↦ omega (arith, f.fewer uid, unlisted uid [] cs e refl n)
        ],
        f.same_kept,
      )
