-- ===== src/Workflow/Dag.antt =====
-- The validation of a workflow's dependency graph (`Orchestrator::validate_dag` of
-- src/services/workflow/orchestrator.rs): Kahn's algorithm over the steps' ids.
pub mod Counting
pub mod Edges
pub mod Build
pub mod Loop
pub mod Order
pub mod Validate
pub mod Induction
use mathlib.Core.Option.{get_or}
use mathlib.Core.List.{filter_map}
use botto.Prelude.{
  String, ℕ, zero, suc, ◌+◌, ◌-◌, ◌^◌, ◌≡◌, Bool, true, false, List, [], ◌∷◌, ◌++◌, map, Option,
  none, some, Result, ok, err, length, contains, count, string_key, if◌then◌else◌, ◌==◌,
}
use botto.Prelude.Maps.{lookup, insert}
use botto.Workflow.Types.{Host, WorkflowStep}

-- The order in which a `HashMap` yields its keys: any rearrangement.
pub record HashOrder : Type 0 where
  pub order : List String → List String
  pub count-order : (a : String) (xs : List String) → count a (order xs) ≡ count a xs

pub data DagError : Type 0 where
  missing_dependency : (step dep : String) → DagError
  cycle : (steps : List String) → DagError

pub record Graph : Type 0 where
  pub in_degree : List (String × ℕ)
  pub dependents : List (String × List String)

-- `*deg -= 1` on a `usize`.
abbrev pub decrement : ℕ → ℕ
decrement zero = 2 ^ 64 - 1
decrement (suc n) = n

-- The body of the loop over one step's `depends_on`.
unfoldable pub add_dependency : String → String → Graph → Graph
add_dependency id dep g = record {
  in_degree = insert id (get_or (lookup id g.in_degree) 0 + 1) g.in_degree;
  dependents = insert dep (get_or (lookup dep g.dependents) [] ++ id ∷ []) g.dependents;
}

unfoldable pub add_dependencies : String → List String → Graph → Graph
add_dependencies id [] g = g
add_dependencies id (dep ∷ deps) g = add_dependencies id deps (add_dependency id dep g)

-- `in_degree.entry(id).or_insert(0)`.
unfoldable pub add_node : String → Graph → Graph
add_node id g = record g { in_degree = insert id (get_or (lookup id g.in_degree) 0) g.in_degree }

-- One round of the loop that pops `node`: its dependents lose one unmet dependency each.
unfoldable pub release :
    List String → List (String × ℕ) → List String → List (String × ℕ) × List String
release [] in_degree queue = (in_degree, queue)
release (dep ∷ deps) in_degree queue = elim (lookup dep in_degree) [
  | none ↦ release deps in_degree queue
  | some deg ↦
      let left = decrement deg in
      release deps (insert dep left in_degree) (if left == 0 then queue ++ dep ∷ [] else queue)
]

-- The `while` loop on `fuel`; `none` means that the fuel ran out.
unfoldable pub drain :
    List (String × List String)
    → ℕ
    → List (String × ℕ)
    → List String
    → List String
    → Option (List (String × ℕ) × List String)
drain dependents fuel in_degree [] sorted = some (in_degree, sorted)
drain dependents zero in_degree (node ∷ queue) sorted = none
drain dependents (suc fuel) in_degree (node ∷ queue) sorted =
    let (in_degree', queue') = release (get_or (lookup node dependents) []) in_degree queue in
    drain dependents fuel in_degree' queue' (sorted ++ node ∷ [])

-- The ids whose in-degree passes the test.
unfoldable pub with_degree : (ℕ → Bool) → List (String × ℕ) → List String
with_degree test [] = []
with_degree test ((id, deg) ∷ m) = if test deg then id ∷ with_degree test m else with_degree test m

abbrev pub cycle_nodes : HashOrder → List (String × ℕ) → List String
cycle_nodes hash in_degree =
    hash.order (with_degree (λ deg. if deg == 0 then false else true) in_degree)

-- The first dependency of the list that no step has for its id.
unfoldable pub unknown_dependency : List String → List String → Option String
unknown_dependency step_ids [] = none
unknown_dependency step_ids (dep ∷ deps) =
    if contains step_ids dep then unknown_dependency step_ids deps else some dep

module _ {H : Host} where
  abbrev pub ids : List (WorkflowStep H) → List String
  ids = map (λ s. s.id)

  unfoldable pub find_missing : List String → List (WorkflowStep H) → Option (String × String)
  find_missing step_ids [] = none
  find_missing step_ids (step ∷ steps) = elim (unknown_dependency step_ids step.depends_on) [
    | some dep ↦ some (step.id, dep)
    | none ↦ find_missing step_ids steps
  ]

  unfoldable pub build : List (WorkflowStep H) → Graph → Graph
  build [] g = g
  build (step ∷ steps) g =
      build steps (add_dependencies step.id step.depends_on (add_node step.id g))

  abbrev pub graph : List (WorkflowStep H) → Graph
  graph steps = build steps (record { in_degree = []; dependents = [] })

  unfoldable pub conclude :
      HashOrder
      → List (WorkflowStep H)
      → List (String × ℕ)
      → List String
      → Result DagError (List String)
  conclude hash steps in_degree sorted =
      if length sorted == length steps then ok sorted else err (cycle (cycle_nodes hash in_degree))

  -- The fuel is one round for each step, and one more.
  unfoldable pub sort_dag :
      HashOrder → List (WorkflowStep H) → Option (Result DagError (List String))
  sort_dag hash steps =
      let g = graph steps in
      elim (drain g.dependents (suc (length steps)) g.in_degree
        (hash.order (with_degree (λ deg. deg == 0) g.in_degree)) []) [
          | none ↦ none
          | some (in_degree, sorted) ↦ some (conclude hash steps in_degree sorted)
        ]

  unfoldable pub validate_dag :
      HashOrder → List (WorkflowStep H) → Option (Result DagError (List String))
  validate_dag hash [] = some (ok [])
  validate_dag hash (step ∷ steps) = elim (find_missing (ids (step ∷ steps)) (step ∷ steps)) [
    | some (id, dep) ↦ some (err (missing_dependency id dep))
    | none ↦ sort_dag hash (step ∷ steps)
  ]
