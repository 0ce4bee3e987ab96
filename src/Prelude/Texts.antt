-- ===== src/Prelude/Texts.antt =====
-- The text functions of Go's `strings` that the program uses.
use Prim.Native.Char.{Char, code}
use Prim.Native.String.{String, ◌++◌}
use text.Mathlib.Text.{◌==◌ as text_eq}
use text.Mathlib.TextEquality.{eq_iff}
use mathlib.Core.Path.{◌≡◌, refl}
use mathlib.Core.Logic.{◌↔◌}
use mathlib.Core.Bool.{Bool, true, false, ◌||◌, ◌&&◌}
use mathlib.Core.Option.{Option, none, some}
use mathlib.Core.List.{List, [], ◌∷◌}
use native.Mathlib.Omega.{arith}
use kapp.Prelude.Tests.{◌==◌, if◌then◌else◌}

abbrev pub str_eq : String → String → Bool
str_eq = text_eq

pub str_eq_iff : (s t : String) → (str_eq s t ≡ true) ↔ (s ≡ t)
str_eq_iff = eq_iff

abbrev pub is_empty : String → Bool
is_empty String.[] = true
is_empty (String.◌∷◌ c s) = false

abbrev pub char_eq : Char → Char → Bool
char_eq c d = code c == code d

-- strings.HasPrefix(s, prefix)
abbrev pub has_prefix : String → String → Bool
has_prefix s String.[] = true
has_prefix String.[] (String.◌∷◌ d p) = false
has_prefix (String.◌∷◌ c s) (String.◌∷◌ d p) = char_eq c d && has_prefix s p

-- strings.Contains(s, part)
abbrev pub contains : String → String → Bool
contains String.[] part = is_empty part
contains (String.◌∷◌ c s) part = has_prefix (String.◌∷◌ c s) part || contains s part

-- strings.HasSuffix(s, suffix)
abbrev pub has_suffix : String → String → Bool
has_suffix String.[] suffix = is_empty suffix
has_suffix (String.◌∷◌ c s) suffix = str_eq (String.◌∷◌ c s) suffix || has_suffix s suffix

-- strings.TrimSuffix(s, suffix)
abbrev pub trim_suffix : String → String → String
trim_suffix String.[] suffix = String.[]
trim_suffix (String.◌∷◌ c s) suffix =
    let rest = trim_suffix s suffix in
    if str_eq (String.◌∷◌ c s) suffix then String.[] else String.◌∷◌ c rest

-- strings.Join(texts, sep)
abbrev pub join : String → List String → String
join sep [] = ""
join sep (t ∷ []) = t
join sep (t ∷ u ∷ ts) = t ++ sep ++ join sep (u ∷ ts)

abbrev pub cons_head : Char → List String → List String
cons_head c [] = String.◌∷◌ c String.[] ∷ []
cons_head c (piece ∷ pieces) = String.◌∷◌ c piece ∷ pieces

-- strings.Split(s, sep) for a separator of one character.
unfoldable pub split : Char → String → List String
split sep String.[] = String.[] ∷ []
split sep (String.◌∷◌ c s) =
    let pieces = split sep s in if char_eq c sep then String.[] ∷ pieces else cons_head c pieces

-- A map with text keys, in the order in which `range` visits it.
abbrev pub lookup {ℓ} : {V : Type ℓ} → String → List (String × V) → Option V
lookup k [] = none
lookup k ((j, v) ∷ m) = if str_eq j k then some v else lookup k m

-- m[k] = v: a key that is there keeps its place.
abbrev pub put {ℓ} : {V : Type ℓ} → String → V → List (String × V) → List (String × V)
put k v [] = (k, v) ∷ []
put k v ((j, w) ∷ m) = if str_eq j k then (j, v) ∷ m else (j, w) ∷ put k v m

-- delete(m, k)
abbrev pub without {ℓ} : {V : Type ℓ} → String → List (String × V) → List (String × V)
without k [] = []
without k ((j, w) ∷ m) = let rest = without k m in if str_eq j k then rest else (j, w) ∷ rest

pub lookup-without {ℓ} :
    {V : Type ℓ} (k : String) (m : List (String × V)) → lookup k (without k m) ≡ none
lookup-without k [] = refl
lookup-without k ((j, w) ∷ m) = ground (arith, lookup-without k m)

abbrev pub elem_text : String → List String → Bool
elem_text s [] = false
elem_text s (t ∷ ts) = str_eq s t || elem_text s ts
