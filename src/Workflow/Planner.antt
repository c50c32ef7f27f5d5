-- ===== src/Workflow/Planner.antt =====
-- The validation of a plan that a language model wrote (src/services/workflow/planner.rs,
-- `validate_plan` and `has_cycle`).
pub mod Acyclic
pub mod Valid
pub mod Fuel
pub mod Tests
use botto.Prelude.{
  String, ℕ, zero, suc, ◌<◌, Bool, true, false, not, List, [], ◌∷◌, ◌++◌, Option, none, some,
  Result, ok, err, ◌<>◌, join, map, retain, contains, string_key, nat_key, length, if◌then◌else◌,
  ite,
}
use botto.Prelude.Maps.{lookup, insert}
use botto.Workflow.Session.Types.{PlanStep, SessionPlan}
use mathlib.Core.Option

-- The state of a node in the search: 0, 1 and 2 in the source.
pub data Mark : Type 0 where
  unvisited in_path explored : Mark

-- The vector of states, with what was written to it; a node that is not in it has state 0.
abbrev pub Marks : Type 0
Marks = List (ℕ × Mark)

unfoldable pub mark : Marks → ℕ → Mark
mark st i = Option.get_or (lookup i st) unvisited

-- `index_map`, in which a later step takes the place of an earlier one with its id.
unfoldable pub index_from : ℕ → List PlanStep → String → Option ℕ
index_from i [] id = none
index_from i (s ∷ steps) id = elim (index_from (suc i) steps id) [
  | some j ↦ some j
  | none ↦ ite (string_key.dec s.id id) (some i) none
]

unfoldable pub filter_map : (String → Option ℕ) → List String → List ℕ
filter_map f [] = []
filter_map f (x ∷ xs) = let rest = filter_map f xs in elim (f x) [ none ↦ rest | some n ↦ n ∷ rest ]

unfoldable pub adjacency : List PlanStep → List (List ℕ)
adjacency steps = map (λ s. filter_map (index_from 0 steps) s.depends_on) steps

unfoldable pub neighbours : List (List ℕ) → ℕ → List ℕ
neighbours [] i = []
neighbours (ns ∷ adj) zero = ns
neighbours (ns ∷ adj) (suc i) = neighbours adj i

-- What a search answers: nothing without fuel, or whether it met a cycle, and the states then.
abbrev pub Search : Type 0
Search = ℕ → Marks → Option (Bool × Marks)

-- A search that met a cycle, or has no fuel, ends there.
unfoldable pub on_search :
    Option (Bool × Marks) → (Marks → Option (Bool × Marks)) → Option (Bool × Marks)
on_search none go_on = none
on_search (some (true, st)) go_on = some (true, st)
on_search (some (false, st)) go_on = go_on st

unfoldable pub by_mark : {A : Type 0} → Mark → A → A → A → A
by_mark unvisited a b c = a
by_mark in_path a b c = b
by_mark explored a b c = c

-- The loop over the neighbours of a node.
unfoldable pub visit_all : Search → List ℕ → Marks → Option (Bool × Marks)
visit_all go [] st = some (false, st)
visit_all go (n ∷ ns) st =
    by_mark (mark st n) (on_search (go n st) (λ st'. visit_all go ns st')) (some (true, st))
      (visit_all go ns st)

-- `dfs`.
unfoldable pub dfs : ℕ → List (List ℕ) → Search
dfs zero adj node st = none
dfs (suc fuel) adj node st =
    on_search (visit_all (dfs fuel adj) (neighbours adj node) (insert node in_path st))
      λ st'. some (false, insert node explored st')

unfoldable pub range : ℕ → ℕ → List ℕ
range i zero = []
range i (suc n) = i ∷ range (suc i) n

-- The loop over all nodes: from those that no search has visited.
unfoldable pub search_from : Search → List ℕ → Marks → Option (Bool × Marks)
search_from go [] st = some (false, st)
search_from go (n ∷ ns) st =
    by_mark (mark st n) (on_search (go n st) (λ st'. search_from go ns st')) (search_from go ns st)
      (search_from go ns st)

-- `has_cycle`, with fuel for one node more than there are.
unfoldable pub has_cycle : List PlanStep → Option Bool
has_cycle steps =
    Option.map (λ r. r.0)
      (search_from (dfs (suc (length steps)) (adjacency steps)) (range 0 (length steps)) [])

-- The ids that stand a second time, in order.
unfoldable pub dupes_of : (seen_ids : List String) → List PlanStep → List String
dupes_of seen_ids [] = []
dupes_of seen_ids (s ∷ steps) =
    if contains seen_ids s.id
    then s.id ∷ dupes_of seen_ids steps
    else dupes_of (s.id ∷ seen_ids) steps

-- Only dependencies on steps of the plan are kept.
unfoldable pub prune_step : (valid_ids : List String) → PlanStep → PlanStep
prune_step valid_ids s = record s { depends_on = retain (contains valid_ids) s.depends_on }

unfoldable pub pruned : List PlanStep → List PlanStep
pruned steps = map (prune_step (map (λ s. s.id) steps)) steps

unfoldable pub conclude_plan : SessionPlan → Option Bool → Option (Result String SessionPlan)
conclude_plan plan none = none
conclude_plan plan (some true) = some (err "planner produced a plan with cyclic dependencies")
conclude_plan plan (some false) = some (ok plan)

unfoldable pub checked :
    SessionPlan → List PlanStep → List String → Option (Result String SessionPlan)
checked plan [] dupes = some (err "planner produced an empty plan with no steps")
checked plan (s ∷ steps) (d ∷ dupes) =
    some (err ("planner produced duplicate step IDs: " <> join ", " (d ∷ dupes)))
checked plan (s ∷ steps) [] =
    conclude_plan (record plan { steps = pruned plan.steps }) (has_cycle (pruned plan.steps))

-- `validate_plan`; `none` stands for a search without fuel.
unfoldable pub validate_plan : SessionPlan → Option (Result String SessionPlan)
unfolding checked
validate_plan plan = checked plan plan.steps (dupes_of [] plan.steps)
