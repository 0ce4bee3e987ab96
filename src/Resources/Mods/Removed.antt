-- ===== src/Resources/Mods/Removed.antt =====
-- About mod_field_remove.go on paths of map keys.
use kapp.Prelude.{
  String, List, [], ◌∷◌, none, some, ◌≡◌, refl, inl, inr, Option-cases, ok, ◌∙◌, Result, false, sym,
}
use kapp.Resources.Json.{Json, null, bool, num, str, arr, obj, Fields, get_field}
use kapp.Resources.Path.{new_path_from_strings}
use kapp.Resources.Mods.Update.{Regexps, set_field, delete_field, ModError}
use kapp.Resources.Mods.Remove.{remove, remove_in}
use kapp.Resources.Mods.Lookup.{
  lookup_path, Diverge, get_field-delete_field_self, get_field-delete_field_ne,
  lookup_path-set_field, lookup_path-Diverge, lookup_path-found,
}

-- A result from which the value at a path is gone and that keeps all others.
abbrev pub IsRemoved : List String → Json → Json → Type 0
IsRemoved ks v w =
    (lookup_path ks w ≡ none)
    × ((js : List String) → Diverge js ks → lookup_path js w ≡ lookup_path js v)

delete_field-IsRemoved :
    (k : String) (fs : Fields) → IsRemoved (k ∷ []) (obj fs) (obj (delete_field k fs))
unfolding lookup_path
delete_field-IsRemoved k fs = (rw (get_field-delete_field_self k fs, lookup_path) refl, kept)
  where
    kept :
        (js : List String)
        → Diverge js (k ∷ [])
        → lookup_path js (obj (delete_field k fs)) ≡ lookup_path js (obj fs)
    kept [] d = absurd d
    kept (j ∷ js) (inl n) = rw (get_field-delete_field_ne j k fs n, lookup_path) refl
    kept (j ∷ []) (inr d) = absurd d
    kept (j ∷ i ∷ js) (inr d) = absurd d

set_field-IsRemoved :
    (k : String) (ks : List String) (v w : Json) (fs : Fields)
    → get_field k fs ≡ some v
    → IsRemoved ks v w
    → IsRemoved (k ∷ ks) (obj fs) (obj (set_field k w fs))
set_field-IsRemoved k ks v w fs e (gone, kept) = (
  lookup_path-set_field k ks w fs ∙ gone,
  lookup_path-Diverge k ks w fs (λ js d. kept js d ∙ sym (lookup_path-found k js v fs e)),
)

remove_in-none :
    (k : String) (next : Json → Result ModError Json) (fs : Fields)
    → get_field k fs ≡ none
    → remove_in k false next fs ≡ ok (obj fs)
unfolding remove_in
remove_in-none k next fs e = rw (e, remove_in) refl

remove_in-some :
    (k : String) (next : Json → Result ModError Json) (fs : Fields) (v w : Json)
    → get_field k fs ≡ some v
    → next v ≡ ok w
    → remove_in k false next fs ≡ ok (obj (set_field k w fs))
unfolding remove_in
remove_in-some k next fs v w e r = rw (e, remove_in, r) refl

-- The removal of the value at a path of map keys never fails: on every object it gives one that has no
-- value at the path, and at every path that diverges from it the value that was there.
pub remove-keys :
    (compile : Regexps) (k : String) (ks : List String) (v : Json)
    → (w : Json) × (remove compile (new_path_from_strings (k ∷ ks)) v ≡ ok w)
      × IsRemoved (k ∷ ks) v w
unfolding remove new_path_from_strings lookup_path
remove-keys compile k [] (obj fs) = (obj (delete_field k fs), refl, delete_field-IsRemoved k fs)
remove-keys compile k (j ∷ ks) (obj fs) = elim (Option-cases (get_field k fs)) [
  | inl e ↦ (obj fs, remove_in-none k _ fs e, (rw (e, lookup_path) refl, λ js d. refl))
  | inr (v, e) ↦
      let (w, r, removed) = remove-keys compile j ks v in
      (
        obj (set_field k w fs),
        remove_in-some k _ fs v w e r,
        set_field-IsRemoved k (j ∷ ks) v w fs e removed,
      )
]
remove-keys compile k ks null = (null, refl, (refl, λ js d. refl))
remove-keys compile k ks (bool b) = (bool b, refl, (refl, λ js d. refl))
remove-keys compile k ks (num n) = (num n, refl, (refl, λ js d. refl))
remove-keys compile k ks (str s) = (str s, refl, (refl, λ js d. refl))
remove-keys compile k ks (arr xs) = (arr xs, refl, (refl, λ js d. refl))
