-- ===== src/Resources/Uniqueness.antt =====
-- About unique_resources.go.
use kapp.Prelude.{
  String, Bool, true, false, List, [], ◌∷◌, none, some, ◌≡◌, refl, inl, inr, Bool-cases,
  Option-cases, str_eq, str_eq_iff, lookup, elem_text, sym, ◌∙◌,
}
use kapp.Resources.Resource.{Resource}
use kapp.Resources.Unique.{unique_key, unique_loop, unique_resources, keys_of}

abbrev pub IsDistinct : List String → Type 0
IsDistinct [] = Unit
IsDistinct (k ∷ ks) = (elem_text k ks ≡ false) × IsDistinct ks

-- What a run of the loop keeps, given what it has seen.
record Kept (seen : List (String × Resource)) (rs kept : List Resource) : Type 0 where
  fresh : (k : String) (r : Resource) → lookup k seen ≡ some r → elem_text k (keys_of kept) ≡ false
  distinct : IsDistinct (keys_of kept)
  complete :
      (k : String) → lookup k seen ≡ none → elem_text k (keys_of kept) ≡ elem_text k (keys_of rs)

-- A text that is looked up with another outcome is another text.
other_key :
    (seen : List (String × Resource)) (k j : String) (r : Resource)
    → lookup k seen ≡ none
    → lookup j seen ≡ some r
    → str_eq k j ≡ false
other_key seen k j r h g = elim (Bool-cases (str_eq k j)) [
  | inr n ↦ n
  | inl n ↦ let e = (str_eq_iff k j).0 n in cc
]

beside :
    (k : String) (res : Resource) (rs : List Resource)
    → str_eq k (unique_key res) ≡ false
    → elem_text k (keys_of rs) ≡ elem_text k (keys_of (res ∷ rs))
unfolding keys_of
beside k res rs n = rw (n, keys_of) refl

str_eq_refl : (s : String) → str_eq s s ≡ true
str_eq_refl s = (str_eq_iff s s).1 refl

str_eq_comm : (s t : String) → str_eq s t ≡ str_eq t s
str_eq_comm s t = elim (Bool-cases (str_eq s t)) [
  | inl h ↦ h ∙ sym ((str_eq_iff t s).1 (sym ((str_eq_iff s t).0 h)))
  | inr h ↦ elim (Bool-cases (str_eq t s)) [
    | inr g ↦ h ∙ sym g
    | inl g ↦ (str_eq_iff s t).1 (sym ((str_eq_iff t s).0 g)) ∙ sym g
  ]
]

module _ (equal : Resource → Resource → Bool) where
  unique_loop-Kept :
      (seen : List (String × Resource)) (rs : List Resource)
      → Kept seen rs (unique_loop equal seen rs).0
  unfolding unique_loop keys_of
  unique_loop-Kept seen [] = record { fresh = λ k r h. refl; distinct = tt; complete = λ k h. refl }
  unique_loop-Kept seen (res ∷ rs) = elim (Option-cases (lookup (unique_key res) seen)) [
    | inr (known, e) ↦
        let i = unique_loop-Kept seen rs in
        rw (e, unique_loop)
          record {
            fresh = i.fresh;
            distinct = i.distinct;
            complete = λ k h.
                let n = other_key seen k (unique_key res) known h e in
                i.complete k h ∙ beside k res rs n;
          }
    | inl e ↦
        let i = unique_loop-Kept ((unique_key res, res) ∷ seen) rs in
        rw (e, unique_loop)
          record {
            fresh = λ k r h.
                let n = other_key seen (unique_key res) k r e h in
                rw (str_eq_comm k (unique_key res), n, i.fresh k r (rw n h)) refl;
            distinct =
                (i.fresh (unique_key res) res (rw (str_eq_refl (unique_key res)) refl), i.distinct);
            complete = λ k h. elim (Bool-cases (str_eq k (unique_key res))) [
              | inl m ↦ rw m refl
              | inr m ↦ rw m (i.complete k (rw (str_eq_comm (unique_key res) k, m) h))
            ];
          }
  ]

-- The resources that Resources returns have different keys, and their keys are those of the resources
-- that it was given.
pub unique_resources-IsDistinct :
    (equal : Resource → Resource → Bool) (rs : List Resource)
    → IsDistinct (keys_of (unique_resources equal rs).0)
      × ((k : String)
          → elem_text k (keys_of (unique_resources equal rs).0) ≡ elem_text k (keys_of rs))
unfolding unique_resources
unique_resources-IsDistinct equal rs =
    let kept = unique_loop-Kept equal [] rs in (kept.distinct, λ k. kept.complete k refl)
