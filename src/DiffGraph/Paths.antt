-- ===== src/DiffGraph/Paths.antt =====
-- What the searches are about: paths of dependencies, and the absence of cycles.
use kapp.Prelude.{ℕ, List, ◌≡◌, true, elem}

module _ (waiting : ℕ → List ℕ) where
  -- `a` waits for `b`, directly or through others.
  pub data WaitsFor : ℕ → ℕ → Type 0 where
    direct : {a b : ℕ} → elem b (waiting a) ≡ true → WaitsFor a b
    through : {a b c : ℕ} → elem b (waiting a) ≡ true → WaitsFor b c → WaitsFor a c

  -- No member of the list waits for itself.
  abbrev pub IsAcyclic : List ℕ → Type 0
  IsAcyclic l = (p : ℕ) → elem p l ≡ true → ¬ WaitsFor p p

  abbrev pub Cycle : List ℕ → Type 0
  Cycle l = (p : ℕ) × (elem p l ≡ true) × WaitsFor p p

  -- A set of pointers that holds all that its members wait for.
  abbrev pub IsClosed : List ℕ → Type 0
  IsClosed l = (a b : ℕ) → elem a l ≡ true → elem b (waiting a) ≡ true → elem b l ≡ true
