-- ===== src/DiffGraph/Placeholders.antt =====
-- About change_group_name.go, the errors of the replacement.
use kapp.Prelude.{
  String, ℕ, zero, suc, Option, none, some, Option-cases, Bool-cases, is_empty, inl, inr, lookup,
}
use kapp.DiffGraph.Errors.{Error, unknown_placeholder}
use kapp.DiffGraph.GroupName.{
  Values, value_of, placeholder_at, placeholder_err, later, replace, chars,
}

abbrev pub IsUnknown : Option Error → Type 0
IsUnknown (some (unknown_placeholder p)) = Unit {0}
IsUnknown _ = ⊥

placeholder_err-known : (values : Values) (p : String) → ¬ IsUnknown (placeholder_err values p)
unfolding placeholder_err value_of
placeholder_err-known values p h = elim (Option-cases (lookup p values)) [
  | inl none_found ↦ rw (none_found, placeholder_err, value_of) at h
  | inr (value, found) ↦ elim (Bool-cases (is_empty value)) [
    | inl empty ↦ rw (found, empty, placeholder_err, value_of) at h
    | inr full ↦ rw (found, full, placeholder_err, value_of) at h
  ]
]

later-known : (a b : Option Error) → ¬ IsUnknown a → ¬ IsUnknown b → ¬ IsUnknown (later a b)
unfolding later
later-known a none h k u = h u
later-known a (some e) h k u = k u

-- The replacement of the placeholders of a text, from whatever place in it, never leaves the error
-- that a placeholder is not one of those known, not even where the text has such a placeholder.
pub replace-known :
    (values : Values) (skip : ℕ) (s : String) → ¬ IsUnknown (replace values skip s).1
unfolding replace
replace-known values skip String.[] u = u
replace-known values (suc skip) (String.◌∷◌ c s) u = replace-known values skip s u
replace-known values zero (String.◌∷◌ c s) u = elim (Option-cases (placeholder_at c s)) [
  | inl none_at ↦ replace-known values zero s (rw (none_at, replace) at u)
  | inr (tail, some_at) ↦
      later-known (placeholder_err values (String.◌∷◌ c tail)) (replace values (chars tail) s).1
        (placeholder_err-known values (String.◌∷◌ c tail)) (replace-known values (chars tail) s)
        (rw (some_at, replace) at u)
]
