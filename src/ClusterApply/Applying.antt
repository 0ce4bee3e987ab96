-- ===== src/ClusterApply/Applying.antt =====
-- applying_changes.go. The results of the concurrent calls of `ClusterChange.Apply` are a list in
-- the order in which the channel delivers them; what they depend on (the cluster) is not modelled.
use kapp.Prelude.{
  String, ℕ, List, [], ◌∷◌, ◌++◌, Bool, true, false, not, Option, none, some, elem, select,
  if◌then◌else◌, ◌⊎◌, inl, inr,
}

-- What is kept of a change that went wrong, in place of its text.
pub data Unsuccessful : Type 0 where
  apply_failed : String → Unsuccessful
  wait_errored : ℕ → String → Unsuccessful
  finished_unsuccessfully : ℕ → String → Unsuccessful

pub data ApplyError : Type 0 where
  one_unsuccessful : Unsuccessful → ApplyError
  several_unsuccessful : List Unsuccessful → ApplyError
  timed_out_applying : Option String → ApplyError
  timed_out_waiting : List ℕ → ApplyError
  did_not_apply_all : ℕ → ℕ → ApplyError

pub record ApplyResult : Type 0 where
  pub change : ℕ
  pub retryable : Bool
  pub error : Option String

-- The map `applied`, by its keys.
unfoldable pub mark_applied : ℕ → List ℕ → List ℕ
mark_applied change applied = if elem change applied then applied else change ∷ applied

unfoldable pub non_applied_changes : List ℕ → List ℕ → List ℕ
non_applied_changes applied = select (λ change. not (elem change applied))

-- What the loop that receives the results changes.
pub record Received : Type 0 where
  pub applied : List ℕ
  pub unsuccessful : List Unsuccessful
  pub applied_changes : List ℕ
  pub last_err : Option String

-- A result without an error.
abbrev pub receive_applied : ApplyResult → Received → Received
receive_applied result r = record r {
  applied = mark_applied result.change r.applied;
  applied_changes = r.applied_changes ++ result.change ∷ [];
}

-- An error that may pass: the change stays to be applied.
abbrev pub receive_retryable : String → Received → Received
receive_retryable e r = record r { last_err = some e }

-- An error that stays, where the others go on.
abbrev pub receive_failed : ApplyResult → String → Received → Received
receive_failed result e r = record r {
  applied = mark_applied result.change r.applied;
  unsuccessful = r.unsuccessful ++ apply_failed e ∷ [];
  last_err = some e;
}

unfoldable pub receive : Bool → List ApplyResult → Received → ApplyError ⊎ Received
receive exit_on_error [] r = inr r
receive exit_on_error (result ∷ results) r = elim result.error [
  | none ↦ receive exit_on_error results (receive_applied result r)
  | some e ↦ elim result.retryable [
    | true ↦ receive exit_on_error results (receive_retryable e r)
    | false ↦ elim exit_on_error [
      | true ↦ inl (one_unsuccessful (apply_failed e))
      | false ↦ receive exit_on_error results (receive_failed result e r)
    ]
  ]
]
