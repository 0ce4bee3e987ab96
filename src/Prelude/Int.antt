-- ===== src/Prelude/Int.antt =====
-- Go's integers. `negsuc n` is -(n + 1). Arithmetic wraps at the width that a name ends with.
use Prim.Native.Nat.{ℕ, zero, suc, ◌+◌, ◌-◌, ◌*◌, ◌/◌, ◌%◌, ◌^◌, ◌<◌}
use mathlib.Core.Logic.{◌↔◌}
use native.Mathlib.Omega.{arith}
use Prim.Native.String.{String, ◌++◌, slice}
use mathlib.Core.Path.{◌≡◌, refl, ap}
use mathlib.Core.Bool.{Bool, true, false}
use kapp.Prelude.Tests.{ltb, ◌==◌, ==_iff, if◌then◌else◌}

pub data ℤ : Type 0 where
  pos : ℕ → ℤ
  negsuc : ℕ → ℤ

abbrev pub lt_int : ℤ → ℤ → Bool
lt_int (pos a) (pos b) = ltb a b
lt_int (pos a) (negsuc b) = false
lt_int (negsuc a) (pos b) = true
lt_int (negsuc a) (negsuc b) = ltb b a

abbrev pub eq_int : ℤ → ℤ → Bool
eq_int (pos a) (pos b) = a == b
eq_int (pos a) (negsuc b) = false
eq_int (negsuc a) (pos b) = false
eq_int (negsuc a) (negsuc b) = a == b

abbrev pub neg : ℕ → ℤ
neg zero = pos zero
neg (suc n) = negsuc n

-- The machine word of a number under a modulus, and the number of a word: words from `half` on are
-- negative.
abbrev pub to_word : ℕ → ℤ → ℕ
to_word m (pos n) = n % m
to_word m (negsuc n) = m - 1 - n % m

abbrev pub of_word : ℕ → ℕ → ℤ
of_word half x = if ltb x half then pos x else negsuc (half + half - 1 - x)

pub eq_int_iff : (a b : ℤ) → (eq_int a b ≡ true) ↔ (a ≡ b)
eq_int_iff (pos a) (pos b) = (λ h. ap pos ((==_iff a b).0 h), λ h. (==_iff a b).1 (cc h))
eq_int_iff (pos a) (negsuc b) = (λ h. cc, λ h. cc)
eq_int_iff (negsuc a) (pos b) = (λ h. cc, λ h. cc)
eq_int_iff (negsuc a) (negsuc b) = (λ h. ap negsuc ((==_iff a b).0 h), λ h. (==_iff a b).1 (cc h))

-- a - b as int32.
unfoldable pub sub_int32 : ℤ → ℤ → ℤ
sub_int32 a b = of_word (2 ^ 31) ((to_word (2 ^ 32) a + (2 ^ 32 - to_word (2 ^ 32) b)) % 2 ^ 32)

-- a + b, a - b and a * b as int64.
unfoldable pub add_int64 : ℤ → ℤ → ℤ
add_int64 a b = of_word (2 ^ 63) ((to_word (2 ^ 64) a + to_word (2 ^ 64) b) % 2 ^ 64)

unfoldable pub sub_int64 : ℤ → ℤ → ℤ
sub_int64 a b = of_word (2 ^ 63) ((to_word (2 ^ 64) a + (2 ^ 64 - to_word (2 ^ 64) b)) % 2 ^ 64)

unfoldable pub mul_int64 : ℤ → ℤ → ℤ
mul_int64 a b = of_word (2 ^ 63) ((to_word (2 ^ 64) a * to_word (2 ^ 64) b) % 2 ^ 64)

-- a / 100: Go's division rounds towards zero.
unfoldable pub div_100 : ℤ → ℤ
div_100 (pos n) = pos (n / 100)
div_100 (negsuc n) = neg (suc n / 100)

-- The decimal digits of n in front of a text. A number has at most as many digits as its fuel.
digits : ℕ → ℕ → String → String
digits zero n text = text
digits (suc fuel) n text =
    let more = digits fuel (n / 10) (slice "0123456789" (n % 10) (n % 10 + 1) ++ text) in
    if ltb n 10 then slice "0123456789" n (n + 1) ++ text else more

unfoldable pub show_nat : ℕ → String
unfolding digits
show_nat n = digits (suc n) n ""

-- fmt's %d
unfoldable pub show_int : ℤ → String
unfolding show_nat
show_int (pos n) = show_nat n
show_int (negsuc n) = "-" ++ show_nat (suc n)

show_int-negative : show_int (sub_int32 (pos 3) (pos 1024)) ≡ "-1021"
unfolding show_int sub_int32 show_nat digits
show_int-negative = refl

-- Numbers from 0 on that leave room for the sums of two: arithmetic on them does not wrap.
abbrev pub IsSmall : ℕ → Type 0
IsSmall n = n < 2 ^ 30

pub sub_int32-ltb :
    (a b : ℕ) → IsSmall a → IsSmall b → lt_int (pos 0) (sub_int32 (pos a) (pos b)) ≡ ltb b a
unfolding sub_int32
sub_int32-ltb a b h k = ground arith

-- The same for a - c - b.
pub sub_int32-sub_int32-ltb :
    (a b c : ℕ)
    → IsSmall a
    → IsSmall b
    → IsSmall c
    → lt_int (pos 0) (sub_int32 (sub_int32 (pos a) (pos c)) (pos b)) ≡ ltb (b + c) a
unfolding sub_int32
sub_int32-sub_int32-ltb a b c h k l = ground arith

pub sub_int32-zero : (a : ℕ) → IsSmall a → sub_int32 (pos a) (pos 0) ≡ pos a
unfolding sub_int32
sub_int32-zero a h = ground arith
