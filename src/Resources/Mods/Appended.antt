-- ===== src/Resources/Mods/Appended.antt =====
-- About mod_string_map_append.go on paths of map keys.
use kapp.Prelude.{
  String, Bool, false, List, [], ◌∷◌, ◌++◌, Option, none, some, ◌≡◌, refl, inl, inr, Option-cases,
  Bool-cases, Result, ok, str_eq, ◌∙◌, if◌then◌else◌, subst, str_eq_iff, ap, some-injective, sym,
  ◌||◌, arith,
}
use kapp.Resources.Json.{Json, null, bool, num, str, arr, obj, Fields, end, get_field}
use kapp.Resources.Mods.Update.{ModError, set_field}
use kapp.Resources.Mods.Append.{
  append_key, set_all, not_nil, StringMapAppendMod, append_from, append,
}
use kapp.Resources.Mods.Lookup.{
  lookup_path, Diverge, get_field-set_field_self, get_field-set_field_ne, lookup_path-set_field,
  lookup_path-Diverge, lookup_path-found, nothing_beside, not_nil-some, not_nil-none,
  lookup_path-end,
}
use kapp.Resources.Path.{new_path_from_strings, contains_non_map_keys}

-- The value that the last assignment to a key gives it.
abbrev pub last_value : String → List (String × String) → Option String
last_value k [] = none
last_value k ((j, v) ∷ m) = elim (last_value k m) [
  | some w ↦ some w
  | none ↦ if str_eq j k then some v else none
]

-- Whether the path leads through maps only, as far as there are values on it.
unfoldable pub IsOpen : List String → Json → Type 0
IsOpen [] (obj fs) = Unit
IsOpen (k ∷ ks) (obj fs) = elim (not_nil (get_field k fs)) [ none ↦ Unit | some v ↦ IsOpen ks v ]
IsOpen ks v = ⊥

pub record IsAppended (kvs : List (String × String)) (ks : List String) (v w : Json) : Type 0 where
  pub added :
      (k s : String) → last_value k kvs ≡ some s → lookup_path (ks ++ k ∷ []) w ≡ some (str s)
  pub left :
      (k : String)
      → last_value k kvs ≡ none
      → lookup_path (ks ++ k ∷ []) w ≡ lookup_path (ks ++ k ∷ []) v
  pub kept : (js : List String) → Diverge js ks → lookup_path js w ≡ lookup_path js v

set_all-none :
    (kvs : List (String × String)) (k : String) (fs : Fields)
    → last_value k kvs ≡ none
    → get_field k (set_all kvs fs) ≡ get_field k fs
unfolding set_all
set_all-none [] k fs h = refl
set_all-none ((j, v) ∷ kvs) k fs h = elim (Option-cases (last_value k kvs)) [
  | inr (s, e) ↦ cc (rw e at h)
  | inl e ↦ elim (Bool-cases (str_eq j k)) [
    | inl n ↦ cc (rw (e, n) at h)
    | inr n ↦
        set_all-none kvs k (set_field j (str v) fs) e ∙ get_field-set_field_ne k j (str v) fs n
  ]
]

set_all-some :
    (kvs : List (String × String)) (k s : String) (fs : Fields)
    → last_value k kvs ≡ some s
    → get_field k (set_all kvs fs) ≡ some (str s)
unfolding set_all
set_all-some [] k s fs h = cc
set_all-some ((j, v) ∷ kvs) k s fs h = elim (Option-cases (last_value k kvs)) [
  | inr (s', e) ↦ set_all-some kvs k s (set_field j (str v) fs) (e ∙ (rw e at h))
  | inl e ↦ elim (Bool-cases (str_eq j k)) [
    | inr n ↦ cc (rw (e, n) at h)
    | inl n ↦
        set_all-none kvs k (set_field j (str v) fs) e
        ∙ subst (λ i. get_field i (set_field j (str v) fs) ≡ some (str v)) ((str_eq_iff j k).0 n)
            (get_field-set_field_self j (str v) fs)
        ∙ ap (λ t. some (str t)) (some-injective (rw (e, n) at h))
  ]
]

module _ (k : String) (exit : Bool) (next : Json → Result ModError Json) (fs : Fields) where
  append_key-found :
      (v w : Json)
      → not_nil (get_field k fs) ≡ some v
      → next v ≡ ok w
      → append_key k exit next (obj fs) ≡ ok (obj (set_field k w fs))
  unfolding append_key set_field
  append_key-found v w e r = rw (e, append_key, r) refl

  append_key-created :
      (w : Json)
      → not_nil (get_field k fs) ≡ none
      → exit ≡ false
      → next (obj end) ≡ ok w
      → append_key k exit next (obj fs) ≡ ok (obj (set_field k w fs))
  unfolding append_key set_field
  append_key-created w e f r = rw (e, append_key, f, r) refl

-- From the value at a key to its map: `before` says that below the key the map reads as `v`.
below-IsAppended :
    (kvs : List (String × String)) (k : String) (ks : List String) (v w : Json) (fs : Fields)
    → ((j : String) (js : List String) → lookup_path (k ∷ j ∷ js) (obj fs) ≡ lookup_path (j ∷ js) v)
    → IsAppended kvs ks v w
    → IsAppended kvs (k ∷ ks) (obj fs) (obj (set_field k w fs))
below-IsAppended kvs k ks v w fs before a = record {
  added = λ j s h. lookup_path-set_field k (ks ++ j ∷ []) w fs ∙ a.added j s h;
  left = λ j h. lookup_path-set_field k (ks ++ j ∷ []) w fs ∙ a.left j h ∙ sym (deeper ks j);
  kept = lookup_path-Diverge k ks w fs (beside ks a.kept);
}
  where
    deeper :
        (ks : List String) (j : String)
        → lookup_path (k ∷ ks ++ j ∷ []) (obj fs) ≡ lookup_path (ks ++ j ∷ []) v
    deeper [] j = before j []
    deeper (i ∷ ks) j = before i (ks ++ j ∷ [])

    beside :
        (ks : List String)
        → ((js : List String) → Diverge js ks → lookup_path js w ≡ lookup_path js v)
        → (js : List String) → Diverge js ks
        → lookup_path js w ≡ lookup_path (k ∷ js) (obj fs)
    beside ks kept [] d = absurd d
    beside [] kept (j ∷ js) d = absurd d
    beside (i ∷ ks) kept (j ∷ js) d = kept (j ∷ js) d ∙ sym (before j js)

here-IsAppended :
    (kvs : List (String × String)) (fs : Fields) → IsAppended kvs [] (obj fs) (obj (set_all kvs fs))
unfolding lookup_path
here-IsAppended kvs fs = record {
  added = λ k s h. rw (set_all-some kvs k s fs h, lookup_path) refl;
  left = λ k h. rw (set_all-none kvs k fs h, lookup_path) refl;
  kept = λ js d. absurd (nothing_beside js d);
}

created-IsOpen : (ks : List String) → IsOpen ks (obj end)
unfolding IsOpen not_nil get_field
created-IsOpen [] = tt
created-IsOpen (k ∷ ks) = tt

skips :
    (t : StringMapAppendMod) → t.skip_if_not_found ≡ false → (t.skip_if_not_found || false) ≡ false
skips t h = ground arith

module _ (t : StringMapAppendMod) (keep : t.skip_if_not_found ≡ false) where
  append_from-keys :
      (ks : List String) (v : Json)
      → IsOpen ks v
      → (w : Json) × (append_from t false (new_path_from_strings ks) v ≡ ok w)
        × IsAppended t.kvs ks v w
  unfolding append_from new_path_from_strings IsOpen
  append_from-keys [] (obj fs) o = (obj (set_all t.kvs fs), refl, here-IsAppended t.kvs fs)
  append_from-keys (k ∷ ks) (obj fs) o = elim (Option-cases (not_nil (get_field k fs))) [
    | inr (v, e) ↦
        let (w, r, a) = append_from-keys ks v (rw (e, IsOpen) at o) in
        (
          obj (set_field k w fs),
          append_key-found k (t.skip_if_not_found || false)
              (append_from t false (new_path_from_strings ks)) fs v w e r,
          below-IsAppended t.kvs k ks v w fs (found v e) a,
        )
    | inl e ↦
        let (w, r, a) = append_from-keys ks (obj end) (created-IsOpen ks) in
        (
          obj (set_field k w fs),
          append_key-created k (t.skip_if_not_found || false)
              (append_from t false (new_path_from_strings ks)) fs w e (skips t keep) r,
          below-IsAppended t.kvs k ks (obj end) w fs
              (λ j js. not_nil-none (get_field k fs) fs k j js refl e ∙ sym (lookup_path-end j js))
              a,
        )
  ]
    where
      found :
          (v : Json)
          → not_nil (get_field k fs) ≡ some v
          → (j : String) (js : List String)
          → lookup_path (k ∷ j ∷ js) (obj fs) ≡ lookup_path (j ∷ js) v
      found v e j js = lookup_path-found k (j ∷ js) v fs (not_nil-some (get_field k fs) v e)
  append_from-keys [] null o = absurd o
  append_from-keys [] (bool b) o = absurd o
  append_from-keys [] (num n) o = absurd o
  append_from-keys [] (str s) o = absurd o
  append_from-keys [] (arr xs) o = absurd o
  append_from-keys (k ∷ ks) null o = absurd o
  append_from-keys (k ∷ ks) (bool b) o = absurd o
  append_from-keys (k ∷ ks) (num n) o = absurd o
  append_from-keys (k ∷ ks) (str s) o = absurd o
  append_from-keys (k ∷ ks) (arr xs) o = absurd o

contains_non_map_keys-strings :
    (ks : List String) → contains_non_map_keys (new_path_from_strings ks) ≡ false
unfolding contains_non_map_keys new_path_from_strings
contains_non_map_keys-strings [] = refl
contains_non_map_keys-strings (k ∷ ks) = contains_non_map_keys-strings ks

-- Where a mod does not skip what is not found and its path of map keys leads through maps as far as
-- there are values on it, the mod succeeds: at the end of the path the keys of the mod have their
-- values, all other keys have theirs, and so has every path that diverges from it.
pub append-keys :
    (t : StringMapAppendMod) (ks : List String) (v : Json)
    → t.skip_if_not_found ≡ false
    → IsOpen ks v
    → (w : Json) × (append t (new_path_from_strings ks) v ≡ ok w) × IsAppended t.kvs ks v w
unfolding append
append-keys t ks v keep o =
    let (w, r, a) = append_from-keys t keep ks v o in
    (w, rw (contains_non_map_keys-strings ks) r, a)
