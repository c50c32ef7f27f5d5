-- ===== src/Workflow/Planner/Tests.antt =====
-- A small plan of src/services/workflow/planner.rs, validated.
use botto.Prelude.{
  String, true, List, [], ◌∷◌, none, some, ok, err, ◌≡◌, refl, string_key, nat_key, String_discrete,
}
use native.Mathlib.Decide.{ℕ_discrete}
use botto.Prelude.Maps.{lookup, insert}
use botto.Workflow.Types.{AgentType}
use botto.Workflow.Session.Types.{PlanStep, SessionPlan}
use botto.Workflow.Session.Execution.{find_step, find_next_step, all_steps_complete, is_runnable}
use botto.Workflow.Planner.{
  mark, index_from, filter_map, adjacency, neighbours, on_search, by_mark, visit_all, dfs, range,
  search_from, has_cycle, dupes_of, prune_step, pruned, conclude_plan, checked, validate_plan,
}
use botto.Workflow.Planner.Valid.{validate_plan-never_stuck}

abbrev step_of : String → List String → PlanStep
step_of id depends_on = record {
  id = id;
  description = id;
  agent_type = AgentType.ai;
  success_criteria = "";
  depends_on = depends_on;
  capabilities_needed = [];
  tool = none;
}

abbrev plan_of : List PlanStep → SessionPlan
plan_of steps = record { goal = "tidy up"; steps = steps; capabilities_needed = [] }

abbrev written : SessionPlan
written = plan_of (step_of "b" ("a" ∷ "z" ∷ []) ∷ step_of "a" [] ∷ [])

abbrev let_through : SessionPlan
let_through = plan_of (step_of "b" ("a" ∷ []) ∷ step_of "a" [] ∷ [])

abbrev outputs : List (String × String)
outputs = ("a", "done") ∷ ("b", "done") ∷ []

validate_plan-written : validate_plan written ≡ some (ok let_through)
unfolding validate_plan checked conclude_plan dupes_of pruned prune_step has_cycle search_from dfs
    visit_all on_search by_mark mark neighbours adjacency filter_map index_from range lookup insert
    String_discrete ℕ_discrete
validate_plan-written = refl

find_next_step-let_through : find_next_step let_through outputs ≡ none
unfolding find_next_step find_step is_runnable lookup String_discrete ℕ_discrete
find_next_step-let_through = refl

validate_plan_cyclic :
    validate_plan (plan_of (step_of "a" ("b" ∷ []) ∷ step_of "b" ("a" ∷ []) ∷ []))
    ≡ some (err "planner produced a plan with cyclic dependencies")
unfolding validate_plan checked conclude_plan dupes_of pruned prune_step has_cycle search_from dfs
    visit_all on_search by_mark mark neighbours adjacency filter_map index_from range lookup insert
    String_discrete ℕ_discrete
validate_plan_cyclic = refl

validate_plan-never_stuck_example : all_steps_complete let_through outputs ≡ true
validate_plan-never_stuck_example =
    validate_plan-never_stuck written let_through outputs validate_plan-written
      find_next_step-let_through
