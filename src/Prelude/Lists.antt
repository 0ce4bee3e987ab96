-- ===== src/Prelude/Lists.antt =====
-- Lists under native lengths, and lists of pointers used as sets: membership is a Boolean test.
use Prim.Native.Nat.{ℕ, suc, ◌+◌, ◌≤◌}
use mathlib.Core.Path.{◌≡◌, refl}
use mathlib.Core.Logic.{◌↔◌, ◌⊎◌}
use mathlib.Core.Bool.{Bool, true, false, ◌||◌}
use mathlib.Core.List.{List, [], ◌∷◌, ◌++◌}
use native.Mathlib.Omega.{arith}
use kapp.Prelude.Tests.{◌==◌, if◌then◌else◌}

module _ {ℓ} {A : Type ℓ} where
  abbrev pub length : List A → ℕ
  length [] = 0
  length (x ∷ xs) = suc (length xs)

  -- The elements that pass the test, in order: `for` with an `if` and an `append`.
  abbrev pub select : (A → Bool) → List A → List A
  select p [] = []
  select p (x ∷ xs) = let rest = select p xs in if p x then x ∷ rest else rest

  abbrev pub any : (A → Bool) → List A → Bool
  any p [] = false
  any p (x ∷ xs) = p x || any p xs

  abbrev pub concat : List (List A) → List A
  concat [] = []
  concat (xs ∷ xss) = xs ++ concat xss

  abbrev pub All {κ} : (A → Type κ) → List A → Type κ
  All P [] = Unit
  All P (x ∷ xs) = P x × All P xs

  pub length-append : (xs ys : List A) → length (xs ++ ys) ≡ length xs + length ys
  length-append [] ys = omega arith
  length-append (x ∷ xs) ys = omega (arith, length-append xs ys)

  pub length-select : (p : A → Bool) (xs : List A) → length (select p xs) ≤ length xs
  length-select p [] = omega arith
  length-select p (x ∷ xs) = ground (arith, length-select p xs)

abbrev pub elem : ℕ → List ℕ → Bool
elem a [] = false
elem a (x ∷ xs) = a == x || elem a xs

pub elem-cons : (a x : ℕ) (xs : List ℕ) → elem a (x ∷ xs) ≡ true → (a ≡ x) ⊎ (elem a xs ≡ true)
elem-cons a x xs h = ground arith

pub elem-append : (a : ℕ) (xs ys : List ℕ) → elem a (xs ++ ys) ≡ (elem a xs || elem a ys)
elem-append a [] ys = refl
elem-append a (x ∷ xs) ys = ground (arith, elem-append a xs ys)

pub elem-select :
    (a : ℕ) (p : ℕ → Bool) (xs : List ℕ)
    → (elem a (select p xs) ≡ true) ↔ ((elem a xs ≡ true) × (p a ≡ true))
elem-select a p [] = (λ h. ground arith, λ h. ground arith)
elem-select a p (x ∷ xs) = ground (arith, elem-select a p xs)

-- How often a number stands in a list.
abbrev pub count : ℕ → List ℕ → ℕ
count p [] = 0
count p (q ∷ qs) = let rest = count p qs in if p == q then suc rest else rest

pub count-append : (p : ℕ) (ps qs : List ℕ) → count p (ps ++ qs) ≡ count p ps + count p qs
count-append p (x ∷ ps) qs = ground (arith, count-append p ps qs)
count-append p [] qs = omega arith
