-- ===== src/Resources/Mods/Copying.antt =====
-- About mod_field_copy.go on paths of map keys.
use mathlib.Core.List.{append_assoc}
use kapp.Prelude.{
  String, true, false, List, [], ◌∷◌, ◌++◌, Option, none, some, ◌≡◌, refl, inl, inr, Option-cases,
  Result, ok, sym, ◌∙◌, ap, subst, lookup,
}
use kapp.Resources.Json.{Json, null, bool, num, str, arr, obj, Fields, end, get_field}
use kapp.Resources.Path.{
  FieldPath, new_path_from_strings, new_path_part_from_string, contains_array_index,
}
use kapp.Resources.Mods.Update.{ModError, Regexps, set_field}
use kapp.Resources.Mods.Append.{not_nil}
use kapp.Resources.Mods.Copy.{
  FieldCopyMod, Sources, Step, obtain_value, first_value, copy_into_map, copy_between, copy_from,
  copy, into_field,
}
use kapp.Resources.Mods.Lookup.{
  lookup_path, Diverge, lookup_path-set_field, lookup_path-found, lookup_path-Diverge,
  nothing_beside, not_nil-none, lookup_path-end, not_nil-some,
}

module _ (k : String) (ks : List String) (fs : Fields) where
  obtain_value-missing :
      get_field k fs ≡ none → obtain_value (new_path_from_strings (k ∷ ks)) (obj fs) ≡ ok none
  unfolding obtain_value new_path_from_strings
  obtain_value-missing e =
      ap
        (λ o. elim o as (λ _. Result ModError (Option Json)) [
          | none ↦ ok none
          | some w ↦ obtain_value (new_path_from_strings ks) w
        ])
        e

  obtain_value-found :
      (w : Json)
      → get_field k fs ≡ some w
      → obtain_value (new_path_from_strings (k ∷ ks)) (obj fs)
        ≡ obtain_value (new_path_from_strings ks) w
  unfolding obtain_value new_path_from_strings
  obtain_value-found w e =
      ap
        (λ o. elim o as (λ _. Result ModError (Option Json)) [
          | none ↦ ok none
          | some v ↦ obtain_value (new_path_from_strings ks) v
        ])
        e

obtain_value-lookup_path :
    (ks : List String) (v : Json)
    → obtain_value (new_path_from_strings ks) v ≡ ok (lookup_path ks v)
unfolding obtain_value new_path_from_strings lookup_path
obtain_value-lookup_path [] v = refl
obtain_value-lookup_path (k ∷ ks) (obj fs) = elim (Option-cases (get_field k fs)) [
  | inl e ↦ obtain_value-missing k ks fs e ∙ rw (e, lookup_path) refl
  | inr (w, e) ↦
      obtain_value-found k ks fs w e
      ∙ obtain_value-lookup_path ks w
      ∙ ap ok (sym (lookup_path-found k ks w fs e))
]
obtain_value-lookup_path (k ∷ ks) null = refl
obtain_value-lookup_path (k ∷ ks) (bool b) = refl
obtain_value-lookup_path (k ∷ ks) (num n) = refl
obtain_value-lookup_path (k ∷ ks) (str s) = refl
obtain_value-lookup_path (k ∷ ks) (arr xs) = refl

-- The value of the first source in the order preferred that has one at a path.
abbrev pub preferred : List String → Sources → List String → Option Json
preferred [] srcs ks = none
preferred (name ∷ names) srcs ks = elim (lookup name srcs) [
  | none ↦ preferred names srcs ks
  | some none ↦ preferred names srcs ks
  | some (some fs) ↦ elim (lookup_path ks (obj fs)) [
    | none ↦ preferred names srcs ks
    | some v ↦ some v
  ]
]

first_value-preferred :
    (names : List String) (srcs : Sources) (ks : List String)
    → first_value names srcs (new_path_from_strings ks) ≡ ok (preferred names srcs ks)
unfolding first_value
first_value-preferred [] srcs ks = refl
first_value-preferred (name ∷ names) srcs ks =
    by_source (first_value-preferred names srcs ks) (lookup name srcs) refl
  where
    by_source :
        first_value names srcs (new_path_from_strings ks) ≡ ok (preferred names srcs ks)
        → (source : Option (Option Fields)) → lookup name srcs ≡ source
        → first_value (name ∷ names) srcs (new_path_from_strings ks)
          ≡ ok (preferred (name ∷ names) srcs ks)
    by_source rest none e = rw (e, first_value, preferred) rest
    by_source rest (some none) e = rw (e, first_value, preferred) rest
    by_source rest (some (some fs)) e = elim (Option-cases (lookup_path ks (obj fs))) [
      | inl n ↦ rw (e, first_value, preferred, obtain_value-lookup_path ks (obj fs), n) rest
      | inr (v, n) ↦ rw (e, first_value, preferred, obtain_value-lookup_path ks (obj fs), n) refl
    ]

-- Whether the values on a path are maps up to its last key; `Missing` says whether one may be missing
-- or nil.
unfoldable pub LeadsOn : Type 0 → String → List String → Json → Type 0
LeadsOn Missing k [] (obj fs) = Unit
LeadsOn Missing k (j ∷ ks) (obj fs) = elim (not_nil (get_field k fs)) [
  | none ↦ Missing
  | some v ↦ LeadsOn Missing j ks v
]
LeadsOn Missing k ks v = ⊥

map_of :
    (Missing : Type 0) (k : String) (ks : List String) (v : Json)
    → LeadsOn Missing k ks v
    → (fs : Fields) × (v ≡ obj fs)
unfolding LeadsOn
map_of Missing k ks (obj fs) h = (fs, refl)
map_of Missing k [] null h = absurd h
map_of Missing k (j ∷ ks) null h = absurd h
map_of Missing k [] (bool b) h = absurd h
map_of Missing k (j ∷ ks) (bool b) h = absurd h
map_of Missing k [] (num n) h = absurd h
map_of Missing k (j ∷ ks) (num n) h = absurd h
map_of Missing k [] (str s) h = absurd h
map_of Missing k (j ∷ ks) (str s) h = absurd h
map_of Missing k [] (arr xs) h = absurd h
map_of Missing k (j ∷ ks) (arr xs) h = absurd h

created-LeadsOn : (k : String) (ks : List String) → LeadsOn Unit k ks (obj end)
unfolding LeadsOn not_nil get_field
created-LeadsOn k [] = tt
created-LeadsOn k (j ∷ ks) = tt

pub record IsCopied (ks : List String) (x v w : Json) : Type 0 where
  pub copied : lookup_path ks w ≡ some x
  pub kept : (js : List String) → Diverge js ks → lookup_path js w ≡ lookup_path js v

-- At the last key.
set_field-IsCopied :
    (k : String) (x : Json) (fs : Fields) → IsCopied (k ∷ []) x (obj fs) (obj (set_field k x fs))
unfolding lookup_path
set_field-IsCopied k x fs = record {
  copied = lookup_path-set_field k [] x fs;
  kept = lookup_path-Diverge k [] x fs (λ js d. absurd (nothing_beside js d));
}

below-IsCopied :
    (k j : String) (ks : List String) (x v w : Json) (fs : Fields)
    → ((i : String) (js : List String) → lookup_path (k ∷ i ∷ js) (obj fs) ≡ lookup_path (i ∷ js) v)
    → IsCopied (j ∷ ks) x v w
    → IsCopied (k ∷ j ∷ ks) x (obj fs) (obj (set_field k w fs))
below-IsCopied k j ks x v w fs before c = record {
  copied = lookup_path-set_field k (j ∷ ks) w fs ∙ c.copied;
  kept = lookup_path-Diverge k (j ∷ ks) w fs (beside c.kept);
}
  where
    beside :
        ((js : List String) → Diverge js (j ∷ ks) → lookup_path js w ≡ lookup_path js v)
        → (js : List String) → Diverge js (j ∷ ks)
        → lookup_path js w ≡ lookup_path (k ∷ js) (obj fs)
    beside kept [] d = absurd d
    beside kept (i ∷ js) d = kept (i ∷ js) d ∙ sym (before i js)

module _ (compile : Regexps) (t : FieldCopyMod) (srcs : Sources) where
  module _ (k : String) (next : Step) (fs ss : Fields) (s w : Json) (full : FieldPath) where
    copy_between-found :
        (v : Json)
        → not_nil (get_field k ss) ≡ some s
        → not_nil (get_field k fs) ≡ some v
        → next v s full ≡ ok (w, true)
        → copy_between compile t srcs k false next fs ss full ≡ ok (obj (set_field k w fs), true)
    unfolding copy_between into_field
    copy_between-found v p q r = rw (p, copy_between, q, r) refl

    copy_between-created :
        not_nil (get_field k ss) ≡ some s
        → not_nil (get_field k fs) ≡ none
        → next (obj end) s full ≡ ok (w, true)
        → copy_between compile t srcs k false next fs ss full ≡ ok (obj (set_field k w fs), true)
    unfolding copy_between into_field
    copy_between-created p q r = rw (p, copy_between, q, r) refl

  -- One key further, for any rest of the path that copies.
  copy_between-keys :
      (k j : String) (ks : List String) (next : Step) (fs ss : Fields) (x : Json) (full : FieldPath)
      → ((gs hs : Fields)
          → LeadsOn Unit j ks (obj gs)
          → LeadsOn ⊥ j ks (obj hs)
          → (w : Json) × (next (obj gs) (obj hs) full ≡ ok (w, true))
            × IsCopied (j ∷ ks) x (obj gs) w)
      → LeadsOn Unit k (j ∷ ks) (obj fs)
      → LeadsOn ⊥ k (j ∷ ks) (obj ss)
      → (w : Json) × (copy_between compile t srcs k false next fs ss full ≡ ok (w, true))
        × IsCopied (k ∷ j ∷ ks) x (obj fs) w
  unfolding LeadsOn
  copy_between-keys k j ks next fs ss x full ih r p =
      elim (Option-cases (not_nil (get_field k ss))) [
        | inl e ↦ absurd (rw (e, LeadsOn) at p)
        | inr (s, e) ↦
            let p' : LeadsOn ⊥ j ks s = rw (e, LeadsOn) at p in
            let (hs, q) = map_of ⊥ j ks s p' in
            let source = e ∙ ap some q in
            let p'' = subst (LeadsOn ⊥ j ks) q p' in
            elim (Option-cases (not_nil (get_field k fs))) [
              | inl d ↦
                  let (w, c, copied) = ih end hs (created-LeadsOn j ks) p'' in
                  (
                    obj (set_field k w fs),
                    copy_between-created k next fs ss (obj hs) w full source d c,
                    below-IsCopied k j ks x (obj end) w fs
                        (λ i js.
                          not_nil-none (get_field k fs) fs k i js refl d
                          ∙ sym (lookup_path-end i js))
                        copied,
                  )
              | inr (v, d) ↦
                  let r' : LeadsOn Unit j ks v = rw (d, LeadsOn) at r in
                  let (gs, u) = map_of Unit j ks v r' in
                  let target = d ∙ ap some u in
                  let (w, c, copied) = ih gs hs (subst (LeadsOn Unit j ks) u r') p'' in
                  (
                    obj (set_field k w fs),
                    copy_between-found k next fs ss (obj hs) w full (obj gs) source target c,
                    below-IsCopied k j ks x (obj gs) w fs
                        (λ i js.
                          lookup_path-found k (i ∷ js) (obj gs) fs
                            (not_nil-some (get_field k fs) (obj gs) target))
                        copied,
                  )
            ]
      ]

  copy_from-keys :
      (k : String) (ks : List String) (fs ss : Fields) (x : Json) (full : FieldPath)
      → LeadsOn Unit k ks (obj fs)
      → LeadsOn ⊥ k ks (obj ss)
      → first_value t.sources srcs (full ++ new_path_from_strings (k ∷ ks)) ≡ ok (some x)
      → (w : Json) × (copy_from compile t srcs false
            (new_path_from_strings (k ∷ ks))
            (obj fs)
            (obj ss)
            full
          ≡ ok (w, true))
        × IsCopied (k ∷ ks) x (obj fs) w
  unfolding copy_from new_path_from_strings LeadsOn copy_into_map
  copy_from-keys k [] fs ss x full r p f =
      (obj (set_field k x fs), rw f refl, set_field-IsCopied k x fs)
  copy_from-keys k (j ∷ ks) fs ss x full r p f =
      copy_between-keys k j ks (copy_from compile t srcs false (new_path_from_strings (j ∷ ks))) fs
        ss x (full ++ new_path_part_from_string k ∷ [])
        (λ gs hs r' p'.
          copy_from-keys j ks gs hs x (full ++ new_path_part_from_string k ∷ []) r' p' (
            ap (first_value t.sources srcs) (
              append_assoc full (new_path_part_from_string k ∷ []) (new_path_from_strings (j ∷ ks)))
            ∙ f))
        r p

contains_array_index-strings :
    (ks : List String) → contains_array_index (new_path_from_strings ks) ≡ false
unfolding contains_array_index new_path_from_strings
contains_array_index-strings [] = refl
contains_array_index-strings (k ∷ ks) = contains_array_index-strings ks

-- Where a path of map keys leads through maps in a source, and in the object as far as there are values
-- on it, the copy along it succeeds with the value that the first source in the order preferred has at
-- the path: the object then has that value there, and every path that diverges has what it had.
pub copy-keys :
    (compile : Regexps) (t : FieldCopyMod) (srcs : Sources) (k : String) (ks : List String)
    (fs ss : Fields) (x : Json)
    → LeadsOn Unit k ks (obj fs)
    → LeadsOn ⊥ k ks (obj ss)
    → preferred t.sources srcs (k ∷ ks) ≡ some x
    → (w : Json) × (copy compile t srcs (new_path_from_strings (k ∷ ks)) (obj fs) (obj ss) []
        ≡ ok (w, true))
      × IsCopied (k ∷ ks) x (obj fs) w
unfolding copy
copy-keys compile t srcs k ks fs ss x r p f =
    let (w, c, copied) =
      copy_from-keys compile t srcs k ks fs ss x [] r p
        (first_value-preferred t.sources srcs (k ∷ ks) ∙ ap ok f) in
    (w, rw (contains_array_index-strings (k ∷ ks)) c, copied)
