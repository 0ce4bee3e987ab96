-- ===== src/DiffGraph/Graph.antt =====
-- change_graph.go and change.go: the graph as a list of pointers into a memory of changes, its
-- queries, and the two depth-first searches. A search takes fuel, one more than the changes of the
-- graph.
use kapp.Prelude.{
  String, ℕ, zero, suc, List, [], ◌∷◌, ◌++◌, Bool, true, false, not, ◌==◌, if◌then◌else◌, elem,
  select, length, Result, ok, err, panic, out_of_fuel, ◌>>=◌, wrap_err,
}
use kapp.DiffGraph.Errors.{Error, found_repeated, through, detected_cycle}
use kapp.DiffGraph.Change.{Change}

abbrev pub Memory : Type 0
Memory = ℕ → Change

pub record ChangeGraph : Type 0 where
  pub changes : List ℕ
  pub memory : Memory

abbrev pub waiting_for : Memory → ℕ → List ℕ
waiting_for memory p = (memory p).waiting_for

abbrev pub resource_description : Memory → ℕ → String
resource_description memory p = (memory p).change.resource.description

-- c.WaitingFor = append(c.WaitingFor, target), and assignments in general.
abbrev pub set_waiting_for : ℕ → List ℕ → Memory → Memory
set_waiting_for p waiting memory q =
    if q == p then record (memory q) { waiting_for = waiting } else memory q

unfoldable pub add_waiting_for : ℕ → ℕ → Memory → Memory
add_waiting_for p target memory = set_waiting_for p (waiting_for memory p ++ target ∷ []) memory

unfoldable pub all_matching : (ℕ → Bool) → ChangeGraph → List ℕ
all_matching match_func g = select match_func g.changes

unfoldable pub all : ChangeGraph → List ℕ
unfolding all_matching
all g = all_matching (λ _. true) g

unfoldable pub remove_matching : (ℕ → Bool) → ChangeGraph → ChangeGraph
remove_matching match_func g = record g { changes = select (λ p. not (match_func p)) g.changes }

abbrev pub remove : ℕ → List ℕ → List ℕ
remove p = select (λ q. not (q == p))

-- The two maps of `IsTransitivelyWaitingFor`.
pub record Seen : Type 0 where
  pub already_checked : List ℕ
  pub already_visited : List ℕ

abbrev pub nothing_seen : Seen
nothing_seen = record { already_checked = []; already_visited = [] }

unfoldable pub is_directly_waiting_for : (ℕ → List ℕ) → ℕ → ℕ → Bool
is_directly_waiting_for waiting c change_to_find = elem change_to_find (waiting c)

module _ (waiting : ℕ → List ℕ) (change_to_find : ℕ) where
  -- The loop over `WaitingFor`; `step` is the recursive call.
  unfoldable pub search_each :
      (ℕ → Seen → Result Error (Bool × Seen)) → List ℕ → Seen → Result Error (Bool × Seen)
  search_each step [] seen = ok (false, seen)
  search_each step (p ∷ ps) seen = elim (elem p seen.already_checked) [
    | true ↦ search_each step ps seen
    | false ↦ elim (elem p seen.already_visited) [
      | true ↦ panic "Change: Internal error: cycle detected"
      | false ↦
          step p (record {
            already_checked = p ∷ seen.already_checked;
            already_visited = p ∷ seen.already_visited;
          })
          >>= λ (found, after). elim found [
            | true ↦ ok (true, after)
            | false ↦
                search_each step ps
                  (record after { already_visited = remove p after.already_visited })
          ]
    ]
  ]

  unfoldable pub search_from : ℕ → ℕ → Seen → Result Error (Bool × Seen)
  unfolding is_directly_waiting_for
  search_from zero c seen = out_of_fuel
  search_from (suc fuel) c seen =
      if is_directly_waiting_for waiting c change_to_find
      then ok (true, seen)
      else search_each (search_from fuel) (waiting c) seen

unfoldable pub is_transitively_waiting_for : (ℕ → List ℕ) → ℕ → ℕ → ℕ → Result Error Bool
unfolding search_from search_each
is_transitively_waiting_for waiting fuel c change_to_find =
    search_from waiting change_to_find fuel c nothing_seen >>= λ (found, _). ok found

-- The two maps of `checkCycles`.
pub record Marks : Type 0 where
  pub marked_temp : List ℕ
  pub marked_perm : List ℕ

abbrev pub unmarked : Marks
unmarked = record { marked_temp = []; marked_perm = [] }

module _ (waiting : ℕ → List ℕ) (describe : ℕ → String) where
  unfoldable pub visit_each : (ℕ → Marks → Result Error Marks) → List ℕ → Marks → Result Error Marks
  visit_each step [] marks = ok marks
  visit_each step (m ∷ ms) marks =
      wrap_err (through (describe m)) (step m marks) >>= λ after. visit_each step ms after

  unfoldable pub check_cycles_visit : ℕ → ℕ → Marks → Result Error Marks
  check_cycles_visit zero n marks = out_of_fuel
  check_cycles_visit (suc fuel) n marks =
      if elem n marks.marked_perm
      then ok marks
      else if elem n marks.marked_temp
      then err (found_repeated (describe n))
      else visit_each (check_cycles_visit fuel) (waiting n)
          (record marks { marked_temp = n ∷ marks.marked_temp })
        >>= λ after. ok (record {
          marked_temp = remove n after.marked_temp;
          marked_perm = n ∷ after.marked_perm;
        })

  -- The loop over `unmarked`.
  unfoldable pub check_each : ℕ → List ℕ → Marks → Result Error Marks
  check_each fuel [] marks = ok marks
  check_each fuel (n ∷ ns) marks =
      wrap_err (detected_cycle (describe n)) (check_cycles_visit fuel n marks) >>= λ after.
      check_each fuel ns after

unfoldable pub check_cycles : ChangeGraph → Result Error (Unit {0})
unfolding check_each check_cycles_visit visit_each
check_cycles g =
    check_each (waiting_for g.memory) (resource_description g.memory) (suc (length g.changes))
      g.changes unmarked
    >>= λ _. ok tt

-- The loop of `dedup` over one `WaitingFor`.
unfoldable pub dedup_list : List ℕ → List ℕ → List ℕ
dedup_list seen [] = []
dedup_list seen (p ∷ ps) = elim (elem p seen) [
  | true ↦ dedup_list seen ps
  | false ↦ p ∷ dedup_list (p ∷ seen) ps
]

unfoldable pub dedup_each : List ℕ → Memory → Memory
unfolding dedup_list
dedup_each [] memory = memory
dedup_each (p ∷ ps) memory =
    dedup_each ps (set_waiting_for p (dedup_list [] (waiting_for memory p)) memory)

unfoldable pub dedup : ChangeGraph → ChangeGraph
unfolding dedup_each
dedup g = record g { memory = dedup_each g.changes g.memory }
