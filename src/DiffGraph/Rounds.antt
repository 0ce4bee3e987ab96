-- ===== src/DiffGraph/Rounds.antt =====
-- About change_graph.go, one round of `Linearized`.
use kapp.Prelude.{
  ℕ, ◌+◌, ◌≤◌, ◌<◌, List, [], ◌∷◌, ◌++◌, ◌≡◌, refl, sym, ◌∙◌, ap, ◌↔◌, ◌≢◌, inl, inr, Bool, true,
  false, not, ◌||◌, ◌&&◌, elem, elem-cons, count, count-append, select, length, if◌then◌else◌,
  Bool-cases, arith,
}
use kapp.DiffGraph.Blocked.{is_blocked, none_blocked, Round, record_changes}

pub record_changes-same :
    (ps : List ℕ) (r : Round)
    → r.recorded ≡ r.unblocked
    → (record_changes ps r).recorded ≡ (record_changes ps r).unblocked
unfolding record_changes
record_changes-same [] r h = h
record_changes-same (p ∷ ps) r h = record_changes-same ps _ (ground arith)

pub elem-record_changes :
    (x : ℕ) (ps : List ℕ) (r : Round)
    → elem x (record_changes ps r).recorded ≡ (elem x r.recorded || elem x ps)
unfolding record_changes
elem-record_changes x [] r = ground arith
elem-record_changes x (p ∷ ps) r = elim (Bool-cases (elem p r.recorded)) [
  | inl old ↦ ground (arith, elem-record_changes x ps r)
  | inr new ↦ ground (
    arith,
    elem-record_changes x ps (record {
      recorded = p ∷ r.recorded;
      unblocked = p ∷ r.unblocked;
      section = r.section ++ p ∷ [];
    }),
  )
]

pub count-record_changes :
    (x : ℕ) (ps : List ℕ) (r : Round)
    → count x (record_changes ps r).section
      ≡ count x r.section + (if elem x ps && not (elem x r.recorded) then 1 else 0)
unfolding record_changes
count-record_changes x [] r = omega arith
count-record_changes x (p ∷ ps) r = elim (Bool-cases (elem p r.recorded)) [
  | inl old ↦ ground (arith, count-record_changes x ps r)
  | inr new ↦ ground (
    arith,
    count-append x r.section (p ∷ []),
    count-record_changes x ps (record {
      recorded = p ∷ r.recorded;
      unblocked = p ∷ r.unblocked;
      section = r.section ++ p ∷ [];
    }),
  )
]

pub elem-count : (x : ℕ) (l : List ℕ) → (elem x l ≡ true) ↔ (0 < count x l)
elem-count x [] = (λ h. cc, λ h. absurd (omega arith))
elem-count x (y ∷ ys) = ground (arith, elem-count x ys)

-- All that a change waits for is unblocked.
pub none_blocked-elem :
    (s ps : List ℕ) (b : ℕ) → none_blocked s ps ≡ true → elem b ps ≡ true → elem b s ≡ true
unfolding none_blocked is_blocked
none_blocked-elem s [] b h k = cc
none_blocked-elem s (p ∷ ps) b h k = ground (arith, none_blocked-elem s ps b)

pub some_blocked :
    (s ps : List ℕ) → none_blocked s ps ≡ false → (b : ℕ) × (elem b ps ≡ true) × (elem b s ≡ false)
unfolding none_blocked is_blocked
some_blocked s [] h = cc
some_blocked s (p ∷ ps) h = elim (Bool-cases (elem p s)) [
  | inr blocked ↦ (p, ground arith, blocked)
  | inl free ↦ let (b, m, n) = some_blocked s ps (ground arith) in (b, ground arith, n)
]

pub none_blocked_mono :
    (s t ps : List ℕ)
    → ((x : ℕ) → elem x s ≡ true → elem x t ≡ true)
    → none_blocked s ps ≡ true
    → none_blocked t ps ≡ true
unfolding none_blocked is_blocked
none_blocked_mono s t [] h k = refl
none_blocked_mono s t (p ∷ ps) h k = ground (arith, none_blocked_mono s t ps h, h p)

-- A list that loses an element under a stronger test gets shorter.
pub length-select_mono :
    (p q : ℕ → Bool) (xs : List ℕ)
    → ((x : ℕ) → q x ≡ true → p x ≡ true)
    → length (select q xs) ≤ length (select p xs)
length-select_mono p q [] h = omega arith
length-select_mono p q (x ∷ xs) h = ground (arith, length-select_mono p q xs h, h x)

pub length-select-lt :
    (p q : ℕ → Bool) (xs : List ℕ) (y : ℕ)
    → ((x : ℕ) → q x ≡ true → p x ≡ true)
    → elem y xs ≡ true
    → p y ≡ true
    → q y ≡ false
    → length (select q xs) < length (select p xs)
length-select-lt p q [] y h m hp hq = cc
length-select-lt p q (x ∷ xs) y h m hp hq = elim (elem-cons y x xs m) [
  | inl e ↦
      let px : p x ≡ true = ap p (sym e) ∙ hp in
      let qx : q x ≡ false = ap q (sym e) ∙ hq in ground (arith, length-select_mono p q xs h)
  | inr later ↦ ground (arith, length-select-lt p q xs y h later hp hq, h x)
]

pub select-nil :
    (p : ℕ → Bool) (xs : List ℕ) (x : ℕ) → length (select p xs) ≡ 0 → elem x xs ≡ true → p x ≡ false
select-nil p [] x h m = cc
select-nil p (y ∷ ys) x h m = elim (elem-cons x y ys m) [
  | inl e ↦ ap p e ∙ ground arith
  | inr deep ↦ select-nil p ys x (ground arith) deep
]

pub select-some :
    (p : ℕ → Bool) (xs : List ℕ)
    → length (select p xs) ≢ 0
    → (x : ℕ) × (elem x xs ≡ true) × (p x ≡ true)
select-some p [] h = absurd (h refl)
select-some p (y ∷ ys) h = elim (Bool-cases (p y)) [
  | inl now ↦ (y, ground arith, now)
  | inr n ↦ let (x, m, e) = select-some p ys (λ z. h (ground arith)) in (x, ground arith, e)
]

pub length-nil : (xs : List ℕ) → length xs ≡ 0 → xs ≡ []
length-nil [] h = refl
length-nil (x ∷ xs) h = absurd (omega arith)
