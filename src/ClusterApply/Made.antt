-- ===== src/ClusterApply/Made.antt =====
-- The calls that a run of Calls.antt makes.
use kapp.Prelude.{
  ℕ, zero, suc, Bool, true, false, List, ◌∷◌, none, some, ◌≡◌, refl, if◌then◌else◌, Result, ok, err,
  panic, out_of_fuel, Option,
}
use kapp.ClusterApply.Calls.{
  StrategyError, Call, Run, ◌>>=◌, resume, Attempt, over, again, after_attempt, retry, ApiError,
  or_fail,
}

-- Calls made one after another from those before on, each of which may be made after those before it.
pub data Made (P : List Call → Call → Type 0) (before : List Call) : List Call → Type 0 where
  no_more : Made P before before
  one_more :
      (call : Call) (calls : List Call)
      → Made P before calls
      → P calls call
      → Made P before (call ∷ calls)

module _ (P : List Call → Call → Type 0) where
  abbrev pub Makes : {A : Type 0} → Run A → Type 0
  Makes m = (calls : List Call) → Made P calls (m calls).1

  pub Made-trans : (a b c : List Call) → Made P a b → Made P b c → Made P a c
  Made-trans a b _ s no_more = s
  Made-trans a b _ s (one_more call calls t p) = one_more call calls (Made-trans a b calls s t) p

  pub Made-one : (call : Call) (calls : List Call) → P calls call → Made P calls (call ∷ calls)
  Made-one call calls p = one_more call calls no_more p

  Makes-resume :
      {A B : Type 0} (f : A → Run B) (r : Result StrategyError A)
      → ((a : A) → Makes (f a))
      → Makes (resume f r)
  Makes-resume f (ok a) h calls = h a calls
  Makes-resume f (err e) h calls = no_more
  Makes-resume f (panic m) h calls = no_more
  Makes-resume f out_of_fuel h calls = no_more

  pub Makes->>= :
      {A B : Type 0} (m : Run A) (f : A → Run B)
      → Makes m
      → ((a : A) → Makes (f a))
      → Makes (m >>= f)
  Makes->>= m f h k calls =
      Made-trans calls (m calls).1 _ (h calls) (Makes-resume f (m calls).0 k (m calls).1)

  pub Makes-if :
      {A : Type 0} (b : Bool) (m n : Run A)
      → (b ≡ true → Makes m)
      → (b ≡ false → Makes n)
      → Makes (if b then m else n)
  Makes-if true m n h k = h refl
  Makes-if false m n h k = k refl

  pub Made-if :
      {A : Type 0} (b : Bool) (m n : Run A) (calls : List Call)
      → (b ≡ true → Made P calls (m calls).1)
      → (b ≡ false → Made P calls (n calls).1)
      → Made P calls ((if b then m else n) calls).1
  Made-if true m n calls h k = h refl
  Made-if false m n calls h k = k refl

  pub Makes-or_fail : (a : Option ApiError) → Makes (or_fail a)
  Makes-or_fail none calls = no_more
  Makes-or_fail (some e) calls = no_more

  module _ {S : Type 0} (attempt : S → Run (Attempt S)) (each : (s : S) → Makes (attempt s)) where
    Makes-after_attempt :
        (next : StrategyError → S → Run Unit)
        → ((e : StrategyError) (s : S) → Makes (next e s))
        → (a : Attempt S) → Makes (after_attempt next a)
    unfolding after_attempt
    Makes-after_attempt next h (over none) calls = no_more
    Makes-after_attempt next h (over (some e)) calls = no_more
    Makes-after_attempt next h (again e s) calls = h e s calls

    pub Makes-retry : (polls : ℕ) (s : S) → Makes (retry polls attempt s)
    unfolding retry
    Makes-retry zero s =
        Makes->>= (attempt s) _ (each s) (Makes-after_attempt _ (λ e s' calls. no_more))
    Makes-retry (suc polls) s =
        Makes->>= (attempt s) _ (each s) (Makes-after_attempt _ (λ e s'. Makes-retry polls s'))
