-- ===== src/Prelude/Atoi.antt =====
-- strconv.Atoi, with the texts of its two errors. The text that is quoted in them is not escaped.
use Prim.Native.Nat.{ℕ, ◌+◌, ◌-◌, ◌*◌, ◌^◌}
use Prim.Native.Char.{code}
use Prim.Native.String.{String, ◌++◌}
use mathlib.Core.Path.{◌≡◌, refl}
use mathlib.Core.Logic.{◌⊎◌, inl, inr}
use mathlib.Core.Bool.{◌||◌}
use kapp.Prelude.Tests.{ltb, leb, ◌==◌, if◌then◌else◌}
use kapp.Prelude.Int.{ℤ, pos, negsuc, neg}

pub data Syntax : Type 0 where
  invalid out_of_range : Syntax

-- The unsigned value, digit by digit: the first bad character or the first overflow ends it.
magnitude : ℕ → String → Syntax ⊎ ℕ
magnitude acc String.[] = inr acc
magnitude acc (String.◌∷◌ c s) =
    let acc' = acc * 10 + (code c - 48) in
    let rest = magnitude acc' s in
    if ltb (code c) 48 || ltb 57 (code c)
    then inl invalid
    else if leb (2 ^ 64) acc'
    then inl out_of_range
    else rest

digits_of : String → Syntax ⊎ ℕ
unfolding magnitude
digits_of String.[] = inl invalid
digits_of (String.◌∷◌ c s) = magnitude 0 (String.◌∷◌ c s)

positive : Syntax ⊎ ℕ → Syntax ⊎ ℤ
positive (inl e) = inl e
positive (inr n) = if leb (2 ^ 63) n then inl out_of_range else inr (pos n)

negative : Syntax ⊎ ℕ → Syntax ⊎ ℤ
negative (inl e) = inl e
negative (inr n) = if ltb (2 ^ 63) n then inl out_of_range else inr (neg n)

signed : String → Syntax ⊎ ℤ
unfolding digits_of positive negative
signed String.[] = inl invalid
signed (String.◌∷◌ c s) =
    if code c == 45
    then negative (digits_of s)
    else if code c == 43
    then positive (digits_of s)
    else positive (digits_of (String.◌∷◌ c s))

parse_error : String → Syntax → String
parse_error s invalid = "strconv.Atoi: parsing \"" ++ s ++ "\": invalid syntax"
parse_error s out_of_range = "strconv.Atoi: parsing \"" ++ s ++ "\": value out of range"

unfoldable pub atoi : String → String ⊎ ℤ
unfolding signed parse_error
atoi s = elim (signed s) [ inl e ↦ inl (parse_error s e) | inr n ↦ inr n ]

atoi-negative : atoi "-12" ≡ inr (negsuc 11)
unfolding atoi signed negative digits_of magnitude
atoi-negative = refl

atoi-out_of_range :
    atoi "9223372036854775808"
    ≡ inl "strconv.Atoi: parsing \"9223372036854775808\": value out of range"
unfolding atoi signed positive digits_of magnitude parse_error
atoi-out_of_range = refl
