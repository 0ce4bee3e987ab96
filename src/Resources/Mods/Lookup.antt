-- ===== src/Resources/Mods/Lookup.antt =====
-- Reading an object by a path of map keys, which is what the theorems about mods speak of.
use kapp.Prelude.{
  String, false, List, [], ◌∷◌, Option, none, some, ◌≡◌, refl, ◌⊎◌, str_eq, str_eq_iff, arith, ◌∙◌,
  inl, inr, Bool-cases, subst,
}
use kapp.Resources.Json.{Json, null, bool, num, str, arr, obj, Fields, end, field, get_field}
use kapp.Resources.Mods.Update.{set_field, delete_field}
use kapp.Resources.Mods.Append.{not_nil}

unfoldable pub lookup_path : List String → Json → Option Json
lookup_path [] v = some v
lookup_path (k ∷ ks) (obj fs) = elim (get_field k fs) [ none ↦ none | some w ↦ lookup_path ks w ]
lookup_path (k ∷ ks) v = none

-- Two paths of which neither begins with the other.
abbrev pub Diverge : List String → List String → Type 0
Diverge (j ∷ js) (k ∷ ks) = (str_eq k j ≡ false) ⊎ Diverge js ks
Diverge js ks = ⊥

pub get_field-delete_field_self :
    (k : String) (fs : Fields) → get_field k (delete_field k fs) ≡ none
unfolding get_field delete_field
get_field-delete_field_self k end = refl
get_field-delete_field_self k (field i v fs) = ground (arith, get_field-delete_field_self k fs)

pub get_field-delete_field_ne :
    (j k : String) (fs : Fields)
    → str_eq k j ≡ false
    → get_field j (delete_field k fs) ≡ get_field j fs
unfolding get_field delete_field
get_field-delete_field_ne j k end h = refl
get_field-delete_field_ne j k (field i v fs) h =
    ground
      (arith, str_eq_iff i k, str_eq_iff i j, str_eq_iff k j, get_field-delete_field_ne j k fs h)

pub get_field-set_field_self :
    (k : String) (w : Json) (fs : Fields) → get_field k (set_field k w fs) ≡ some w
unfolding get_field set_field
get_field-set_field_self k w end = ground (arith, str_eq_iff k k)
get_field-set_field_self k w (field i v fs) = ground (arith, get_field-set_field_self k w fs)

pub get_field-set_field_ne :
    (j k : String) (w : Json) (fs : Fields)
    → str_eq k j ≡ false
    → get_field j (set_field k w fs) ≡ get_field j fs
unfolding get_field set_field
get_field-set_field_ne j k w end h = rw h refl
get_field-set_field_ne j k w (field i v fs) h =
    ground
      (arith, str_eq_iff i k, str_eq_iff i j, str_eq_iff k j, get_field-set_field_ne j k w fs h)

-- Below a field that was assigned.
pub lookup_path-set_field :
    (k : String) (ks : List String) (w : Json) (fs : Fields)
    → lookup_path (k ∷ ks) (obj (set_field k w fs)) ≡ lookup_path ks w
unfolding lookup_path
lookup_path-set_field k ks w fs = rw (get_field-set_field_self k w fs, lookup_path) refl

-- Beside it.
pub lookup_path-set_field_ne :
    (j k : String) (js : List String) (w : Json) (fs : Fields)
    → str_eq k j ≡ false
    → lookup_path (j ∷ js) (obj (set_field k w fs)) ≡ lookup_path (j ∷ js) (obj fs)
unfolding lookup_path
lookup_path-set_field_ne j k js w fs h = rw (get_field-set_field_ne j k w fs h, lookup_path) refl

pub lookup_path-found :
    (k : String) (ks : List String) (v : Json) (fs : Fields)
    → get_field k fs ≡ some v
    → lookup_path (k ∷ ks) (obj fs) ≡ lookup_path ks v
unfolding lookup_path
lookup_path-found k ks v fs e = rw (e, lookup_path) refl

-- What stands beside a path below a key that is assigned, is beside the path from the key.
pub lookup_path-Diverge :
    (k : String) (ks : List String) (w : Json) (fs : Fields)
    → ((js : List String) → Diverge js ks → lookup_path js w ≡ lookup_path (k ∷ js) (obj fs))
    → (js : List String) → Diverge js (k ∷ ks)
    → lookup_path js (obj (set_field k w fs)) ≡ lookup_path js (obj fs)
lookup_path-Diverge k ks w fs same [] d = absurd d
lookup_path-Diverge k ks w fs same (j ∷ js) (inl n) = lookup_path-set_field_ne j k js w fs n
lookup_path-Diverge k ks w fs same (j ∷ js) (inr d) = elim (Bool-cases (str_eq k j)) [
  | inr n ↦ lookup_path-set_field_ne j k js w fs n
  | inl n ↦
      subst (λ i. lookup_path (i ∷ js) (obj (set_field k w fs)) ≡ lookup_path (i ∷ js) (obj fs))
        ((str_eq_iff k j).0 n) (lookup_path-set_field k js w fs ∙ same js d)
]

-- Every path begins with the empty one.
pub nothing_beside : (js : List String) → Diverge js [] → ⊥
nothing_beside [] d = d
nothing_beside (j ∷ js) d = d

pub not_nil-some : (o : Option Json) (v : Json) → not_nil o ≡ some v → o ≡ some v
unfolding not_nil
not_nil-some none v h = cc
not_nil-some (some null) v h = cc
not_nil-some (some (bool b)) v h = h
not_nil-some (some (num n)) v h = h
not_nil-some (some (str t)) v h = h
not_nil-some (some (arr xs)) v h = h
not_nil-some (some (obj fs)) v h = h

pub lookup_path-end : (j : String) (js : List String) → lookup_path (j ∷ js) (obj end) ≡ none
unfolding lookup_path get_field
lookup_path-end j js = refl

-- Nothing stands below a key without a value, or with a nil value.
pub not_nil-none :
    (o : Option Json) (fs : Fields) (k j : String) (js : List String)
    → get_field k fs ≡ o
    → not_nil o ≡ none
    → lookup_path (k ∷ j ∷ js) (obj fs) ≡ none
unfolding not_nil lookup_path
not_nil-none none fs k j js e h = rw (e, lookup_path) refl
not_nil-none (some null) fs k j js e h = rw (e, lookup_path) refl
not_nil-none (some (bool b)) fs k j js e h = cc
not_nil-none (some (num n)) fs k j js e h = cc
not_nil-none (some (str t)) fs k j js e h = cc
not_nil-none (some (arr xs)) fs k j js e h = cc
not_nil-none (some (obj gs)) fs k j js e h = cc
