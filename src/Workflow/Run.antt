-- ===== src/Workflow/Run.antt =====
-- Whole runs: starting, resuming, cancelling and finishing one (`Orchestrator::execute_with_id`,
-- `resume`, `cancel` and `finalize_run` of src/services/workflow/orchestrator.rs).
pub mod Outcome
pub mod Cancel
pub mod Resumed
use botto.Prelude.{
  String, ℕ, zero, suc, ◌+◌, ◌≡◌, Bool, true, false, not, ◌&&◌, List, [], ◌∷◌, ◌++◌, map, Option,
  none, some, string_key, if◌then◌else◌, Result, ok, err, any, all, length,
}
use botto.Prelude.Maps.{lookup, insert}
use botto.Workflow.Types.{
  Host, RunStatus, running, cancelled, failed, completed, is_terminal, is_terminal_run,
  TriggerSource, WorkflowStep, WorkflowDefinition, StepState, pending, skipped, WorkflowRun,
}
use botto.Workflow.Dag.{HashOrder, DagError, validate_dag}
use botto.Workflow.Step.{
  Outside, Exec, Effect, checkpointed, checkpointed_terminal, run_started, run_completed,
}
use botto.Workflow.Walk.{States, walk_dag, checkpoint}

pub data ResumeError : Type 0 where
  invalid_dag : (e : DagError) → ResumeError
  not_loaded : ResumeError
  not_saved : ResumeError

module _ {H : Host} where
  abbrev pub is_failed : StepState H → Bool
  is_failed (StepState.failed error retries duration) = true
  is_failed _ = false

  abbrev pub is_running : StepState H → Bool
  is_running (StepState.running agent_id started_at) = true
  is_running _ = false

  abbrev pub values : States H → List (StepState H)
  values = map (λ e. e.1)

  -- The status that the states of the steps decide.
  unfoldable pub final_status : List (StepState H) → RunStatus
  final_status states =
      if not (all is_terminal states)
      then failed
      else (if any is_failed states then failed else completed)

  unfoldable pub finalize_run : H.DateTime → WorkflowRun H → WorkflowRun H
  finalize_run now run = record run {
    status = final_status (values run.step_states);
    completed_at = some now;
  }

  unfoldable pub cancel_states : States H → States H
  cancel_states [] = []
  cancel_states ((id, state) ∷ states) =
      (id, if is_terminal state then state else skipped "workflow cancelled") ∷ cancel_states states

  unfoldable pub cancel : H.DateTime → Exec H → Exec H
  cancel now ex = checkpoint (record ex {
    run = record (ex.run) {
      status = cancelled;
      completed_at = some now;
      step_states = cancel_states ex.run.step_states;
    };
  })

  -- Every step starts as pending.
  unfoldable pub init_states : List (WorkflowStep H) → States H → States H
  init_states [] states = states
  init_states (step ∷ steps) states = init_states steps (insert step.id pending states)

  -- Interrupted steps start again, and steps that the run does not know are added.
  unfoldable pub reset_interrupted : States H → States H
  reset_interrupted [] = []
  reset_interrupted ((id, state) ∷ states) =
      (id, if is_running state then pending else state) ∷ reset_interrupted states

  unfoldable pub add_missing : List (WorkflowStep H) → States H → States H
  add_missing [] states = states
  add_missing (step ∷ steps) states = elim (lookup step.id states) [
    | none ↦ add_missing steps (insert step.id pending states)
    | some state ↦ add_missing steps states
  ]

  module _ (hash : HashOrder) (env : Outside H) (default_timeout fuel : ℕ)
      (now later : H.DateTime) where
    -- The walk, the final status and the last checkpoint; `none` means that the fuel ran out.
    unfoldable pub finish : List (WorkflowStep H) → Exec H → Option (Exec H)
    finish steps ex = elim (walk_dag env default_timeout steps fuel 0 ex) [
      | none ↦ none
      | some walked ↦
          let run = finalize_run later walked.run in
          some (record { run = run; log = checkpointed_terminal run ∷ walked.log })
    ]

    abbrev rejected : H.Uuid → WorkflowDefinition H → TriggerSource H → WorkflowRun H
    rejected run_id definition trigger = record {
      id = run_id;
      workflow_id = definition.id;
      trigger = trigger;
      status = failed;
      step_states = [];
      started_at = now;
      completed_at = some now;
      final_verification = none;
      mentor_queries = [];
    }

    abbrev pub fresh : H.Uuid → WorkflowDefinition H → TriggerSource H → WorkflowRun H
    fresh run_id definition trigger = record {
      id = run_id;
      workflow_id = definition.id;
      trigger = trigger;
      status = running;
      step_states = init_states definition.steps [];
      started_at = now;
      completed_at = none;
      final_verification = none;
      mentor_queries = [];
    }

    abbrev pub started : WorkflowRun H → Exec H
    started run = record { run = run; log = run_started run.id ∷ checkpointed run ∷ [] }

    unfoldable pub execute_with_id :
        H.Uuid → WorkflowDefinition H → TriggerSource H → Option (Exec H)
    execute_with_id run_id definition trigger = elim (validate_dag hash definition.steps) [
      | none ↦ none
      | some (err e) ↦ some (record { run = rejected run_id definition trigger; log = [] })
      | some (ok order) ↦
          elim (finish definition.steps (started (fresh run_id definition trigger))) [
            | none ↦ none
            | some ex ↦ some (record ex { log = run_completed run_id ∷ ex.log })
          ]
    ]

    -- A run goes on if the database has it; a terminal one is returned as it is. `saved` is whether
    -- the last checkpoint is written, without which there is no answer but an error.
    unfoldable pub resume :
        WorkflowDefinition H → Option (WorkflowRun H) → Bool → Option (Result ResumeError (Exec H))
    resume definition loaded saved = elim (validate_dag hash definition.steps) [
      | none ↦ none
      | some (err e) ↦ some (err (invalid_dag e))
      | some (ok order) ↦ elim loaded [
        | none ↦ some (err not_loaded)
        | some run ↦
            if is_terminal_run run.status
            then some (ok (record { run = run; log = [] }))
            else (let states = add_missing definition.steps (reset_interrupted run.step_states) in
                let ready = record run { status = running; step_states = states } in
                elim (finish definition.steps
                  (record { run = ready; log = checkpointed ready ∷ [] })) [
                    | none ↦ none
                    | some ex ↦ some (if saved then ok ex else err not_saved)
                  ])
      ]
    ]
