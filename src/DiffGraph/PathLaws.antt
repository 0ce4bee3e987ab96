-- ===== src/DiffGraph/PathLaws.antt =====
-- Lemmas on paths, on closed sets, and on the number of pointers that a search has not met.
use kapp.Prelude.{
  ℕ, suc, ◌≤◌, ◌<◌, List, [], ◌∷◌, ◌≡◌, true, false, elem, if◌then◌else◌, arith, length,
}
use kapp.DiffGraph.Paths.{WaitsFor, direct, through, IsClosed}

module _ {waiting : ℕ → List ℕ} where
  pub WaitsFor-snoc :
      {a b c : ℕ} → WaitsFor waiting a b → elem c (waiting b) ≡ true → WaitsFor waiting a c
  WaitsFor-snoc (direct h) k = through h (direct k)
  WaitsFor-snoc (through h p) k = through h (WaitsFor-snoc p k)

  pub WaitsFor-trans :
      {a b c : ℕ} → WaitsFor waiting a b → WaitsFor waiting b c → WaitsFor waiting a c
  WaitsFor-trans (direct h) q = through h q
  WaitsFor-trans (through h p) q = through h (WaitsFor-trans p q)

  pub WaitsFor-closed :
      {a b : ℕ} (l : List ℕ)
      → IsClosed waiting l
      → WaitsFor waiting a b
      → elem a l ≡ true
      → elem b l ≡ true
  WaitsFor-closed {a} {b} l closed (direct h) m = closed a b m h
  WaitsFor-closed {a} l closed (through {b = b} h p) m = WaitsFor-closed l closed p (closed a b m h)

abbrev pub missing : List ℕ → List ℕ → ℕ
missing [] seen = 0
missing (c ∷ cs) seen = let rest = missing cs seen in if elem c seen then rest else suc rest

pub missing-le-length : (cs seen : List ℕ) → missing cs seen ≤ length cs
missing-le-length [] seen = omega arith
missing-le-length (c ∷ cs) seen = ground (arith, missing-le-length cs seen)

pub missing_mono :
    (cs : List ℕ) (s t : List ℕ)
    → ((x : ℕ) → elem x s ≡ true → elem x t ≡ true)
    → missing cs t ≤ missing cs s
missing_mono [] s t h = omega arith
missing_mono (c ∷ cs) s t h = ground (arith, missing_mono cs s t h, h c)

pub missing-cons :
    (cs : List ℕ) (n : ℕ) (s : List ℕ)
    → elem n cs ≡ true
    → elem n s ≡ false
    → missing cs (n ∷ s) < missing cs s
missing-cons [] n s m f = cc
missing-cons (c ∷ cs) n s m f =
    ground (arith, missing-cons cs n s, missing_mono cs s (n ∷ s) (λ x h. ground arith))
