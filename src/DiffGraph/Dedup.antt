-- ===== src/DiffGraph/Dedup.antt =====
-- About change_graph.go, `dedup`.
use kapp.Prelude.{
  ℕ, ◌≤◌, List, [], ◌∷◌, ◌≡◌, refl, sym, ◌∙◌, ap, inl, inr, true, not, ◌&&◌, ◌==◌, elem, elem-cons,
  count, if◌then◌else◌, Bool-cases, arith,
}
use kapp.DiffGraph.Change.{Change}
use kapp.DiffGraph.Graph.{Memory, waiting_for, set_waiting_for, dedup_list, dedup_each}
use kapp.DiffGraph.Paths.{WaitsFor, direct, through}
use kapp.DiffGraph.Extends.{if_same}

elem-dedup_list :
    (x : ℕ) (seen ps : List ℕ) → elem x (dedup_list seen ps) ≡ (elem x ps && not (elem x seen))
unfolding dedup_list
elem-dedup_list x seen [] = refl
elem-dedup_list x seen (p ∷ ps) = elim (Bool-cases (elem p seen)) [
  | inl old ↦ ground (arith, elem-dedup_list x seen ps)
  | inr new ↦ ground (arith, elem-dedup_list x (p ∷ seen) ps)
]

count-dedup_list :
    (x : ℕ) (seen ps : List ℕ) → count x (dedup_list seen ps) ≤ (if elem x seen then 0 else 1)
unfolding dedup_list
count-dedup_list x seen [] = ground arith
count-dedup_list x seen (p ∷ ps) = elim (Bool-cases (elem p seen)) [
  | inl old ↦ ground (arith, count-dedup_list x seen ps)
  | inr new ↦ ground (arith, count-dedup_list x (p ∷ seen) ps)
]

module _ (p : ℕ) (m : Memory) where
  abbrev once : Memory
  once = set_waiting_for p (dedup_list [] (waiting_for m p)) m

  once-elem : (a b : ℕ) → elem b (waiting_for once a) ≡ elem b (waiting_for m a)
  once-elem a b = elim (Bool-cases (a == p)) [
    | inl e ↦
        let a_p : a ≡ p = ground arith in
        ground (
          arith,
          elem-dedup_list b [] (waiting_for m p),
          ap (λ (x : ℕ). elem b (waiting_for m x)) a_p,
        )
    | inr n ↦ ground arith
  ]

  once-count : (b : ℕ) → count b (waiting_for once p) ≤ 1
  once-count b = ground (arith, count-dedup_list b [] (waiting_for m p))

  once-keeps : (a b : ℕ) → count b (waiting_for m a) ≤ 1 → count b (waiting_for once a) ≤ 1
  once-keeps a b h = ground (arith, count-dedup_list b [] (waiting_for m p))

pub dedup_each-elem :
    (ps : List ℕ) (m : Memory) (a b : ℕ)
    → elem b (waiting_for (dedup_each ps m) a) ≡ elem b (waiting_for m a)
unfolding dedup_each
dedup_each-elem [] m a b = refl
dedup_each-elem (p ∷ ps) m a b = dedup_each-elem ps (once p m) a b ∙ once-elem p m a b

dedup_each-keeps :
    (ps : List ℕ) (m : Memory) (a b : ℕ)
    → count b (waiting_for m a) ≤ 1
    → count b (waiting_for (dedup_each ps m) a) ≤ 1
unfolding dedup_each
dedup_each-keeps [] m a b h = h
dedup_each-keeps (p ∷ ps) m a b h = dedup_each-keeps ps (once p m) a b (once-keeps p m a b h)

pub dedup_each-count :
    (ps : List ℕ) (m : Memory) (a b : ℕ)
    → elem a ps ≡ true
    → count b (waiting_for (dedup_each ps m) a) ≤ 1
unfolding dedup_each
dedup_each-count [] m a b h = cc
dedup_each-count (p ∷ ps) m a b h = elim (elem-cons a p ps h) [
  | inl e ↦ dedup_each-keeps ps (once p m) a b (rw e (once-count p m b))
  | inr later ↦ dedup_each-count ps (once p m) a b later
]

pub dedup_each-same :
    (ps : List ℕ) (m : Memory) (a : ℕ)
    → dedup_each ps m a ≡ record (m a) { waiting_for = waiting_for (dedup_each ps m) a }
unfolding dedup_each
dedup_each-same [] m a = refl
dedup_each-same (p ∷ ps) m a =
    dedup_each-same ps (once p m) a
    ∙ ap (λ (c : Change). record c { waiting_for = waiting_for (dedup_each ps (once p m)) a })
        (if_same (a == p) (m a) (dedup_list [] (waiting_for m p)))

-- Paths depend only on what is waited for, not on the order or on repetitions.
pub WaitsFor-same :
    {w w' : ℕ → List ℕ} {a b : ℕ}
    → ((x y : ℕ) → elem y (w' x) ≡ elem y (w x))
    → WaitsFor w' a b
    → WaitsFor w a b
WaitsFor-same {a = a} {b = b} h (direct e) = direct (sym (h a b) ∙ e)
WaitsFor-same {a = a} h (through {b = b} e p) = through (sym (h a b) ∙ e) (WaitsFor-same h p)
