-- ===== src/Prelude/Results.antt =====
-- Fallible code: an error value, a panic, or a loop that used up its fuel.
use Prim.Native.String.{String}
use mathlib.Core.Path.{◌≡◌, refl}
use mathlib.Core.Logic.{◌⊎◌, inr}

pub data Result (E A : Type 0) : Type 0 where
  ok : A → Result E A
  err : E → Result E A
  panic : String → Result E A
  out_of_fuel : Result E A

module _ {E A B : Type 0} where
  infixl 5 ◌>>=◌
  abbrev pub ◌>>=◌ : Result E A → (A → Result E B) → Result E B
  ok a >>= f = f a
  err e >>= f = err e
  panic m >>= f = panic m
  out_of_fuel >>= f = out_of_fuel

  -- What a chain that ends well went through.
  pub >>=-eq-ok :
      (r : Result E A) (k : A → Result E B) {end : B}
      → (r >>= k) ≡ ok end
      → (middle : A) × (r ≡ ok middle) × (k middle ≡ ok end)
  >>=-eq-ok (panic m) k h = cc
  >>=-eq-ok out_of_fuel k h = cc
  >>=-eq-ok (err e) k h = cc
  >>=-eq-ok (ok v) k h = (v, refl, h)

pub ok-injective : {E A : Type 0} {a b : A} → ◌≡◌ {A = Result E A} (ok a) (ok b) → a ≡ b
ok-injective h = cc

-- Wraps an error: `fmt.Errorf("...: %w", err)`.
abbrev pub wrap_err : {E F A : Type 0} → (E → F) → Result E A → Result F A
wrap_err f (ok a) = ok a
wrap_err f (err e) = err (f e)
wrap_err f (panic m) = panic m
wrap_err f out_of_fuel = out_of_fuel

-- What holds of a result that is a value or an error, and neither a panic nor out of fuel.
module _ {E : Type 0} where
  abbrev pub Holds : {A : Type 0} → (A → Type 0) → (E → Type 0) → Result E A → Type 0
  Holds P Q (ok a) = P a
  Holds P Q (err e) = Q e
  Holds P Q (panic m) = ⊥
  Holds P Q out_of_fuel = ⊥

  pub Holds->>= :
      {A B : Type 0} (P : A → Type 0) (R : B → Type 0) (Q : E → Type 0) (m : Result E A)
      (f : A → Result E B)
      → Holds P Q m
      → ((a : A) → P a → Holds R Q (f a))
      → Holds R Q (m >>= f)
  Holds->>= P R Q (ok a) f h k = k a h
  Holds->>= P R Q (err e) f h k = h
  Holds->>= P R Q (panic m) f h k = h
  Holds->>= P R Q out_of_fuel f h k = h

  pub Holds-map :
      {A : Type 0} (P R : A → Type 0) (Q : E → Type 0) (m : Result E A)
      → Holds P Q m
      → ((a : A) → P a → R a)
      → Holds R Q m
  Holds-map P R Q (ok a) h k = k a h
  Holds-map P R Q (err e) h k = h
  Holds-map P R Q (panic m) h k = h
  Holds-map P R Q out_of_fuel h k = h

-- A wrapped error is still an error.
pub Holds-wrap_err :
    {E F A : Type 0} (P : A → Type 0) (C : Type 0) (g : E → F) (m : Result E A)
    → Holds P (λ _. C) m
    → Holds P (λ _. C) (wrap_err g m)
Holds-wrap_err P C g (ok a) h = h
Holds-wrap_err P C g (err e) h = h
Holds-wrap_err P C g (panic m) h = h
Holds-wrap_err P C g out_of_fuel h = h

pub inr-injective : {A B : Type 0} {b c : B} → ◌≡◌ {A = A ⊎ B} (inr b) (inr c) → b ≡ c
inr-injective h = cc
