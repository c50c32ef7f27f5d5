-- ===== src/Workflow/Walk.antt =====
-- The walk over the dependency graph, wave by wave (`Orchestrator::walk_dag` and
-- `propagate_dependency_failures` of src/services/workflow/orchestrator.rs). The tasks of a wave run
-- concurrently in the program; they share no state of the run, so their effects are logged task by
-- task, in the order in which the walk joins them.
pub mod Distinct
pub mod Soundness
pub mod Waves
pub mod Progress
pub mod Tasks
pub mod Whole
pub mod Ends
pub mod Stuck
pub mod Kept
use botto.Prelude.{
  String, ℕ, zero, suc, ◌+◌, ◌≡◌, Bool, true, false, ◌&&◌, List, [], ◌∷◌, ◌++◌, map, Option, none,
  some, string_key, if◌then◌else◌, ◌<>◌, all, retain,
}
use botto.Prelude.Maps.{lookup, insert}
use botto.Workflow.Types.{
  Host, RunStatus, cancelled, WorkflowStep, WorkflowDefinition, StepState, pending, running,
  completed, failed, skipped, WorkflowRun,
}
use botto.Workflow.Step.{
  Outside, Exec, Effect, checkpointed, step_started, step_completed, step_failed, execute_step,
  execute_step_standalone, resolve_inputs,
}

-- The states of a run's steps.
abbrev pub States : Host → Type 0
States H = List (String × StepState H)

abbrev pub skip_reason : String → String
skip_reason dep = "dependency '" <> dep <> "' failed/skipped"

abbrev pub is_cancelled : RunStatus → Bool
is_cancelled cancelled = true
is_cancelled _ = false

module _ {H : Host} where
  abbrev pub is_pending : Option (StepState H) → Bool
  is_pending (some pending) = true
  is_pending _ = false

  abbrev pub is_completed : Option (StepState H) → Bool
  is_completed (some (completed output duration)) = true
  is_completed _ = false

  abbrev pub is_blocked : Option (StepState H) → Bool
  is_blocked (some (failed error retries duration)) = true
  is_blocked (some (skipped reason)) = true
  is_blocked _ = false

  -- The first dependency that failed or was skipped.
  unfoldable pub failed_dep : States H → List String → Option String
  failed_dep states [] = none
  failed_dep states (dep ∷ deps) =
      if is_blocked (lookup dep states) then some dep else failed_dep states deps

  -- One pass of the loop over all steps: the new states, and whether any changed.
  unfoldable pub propagate_pass : List (WorkflowStep H) → States H → Bool → States H × Bool
  propagate_pass [] states changed = (states, changed)
  propagate_pass (step ∷ steps) states changed = elim (is_pending (lookup step.id states)) [
    | false ↦ propagate_pass steps states changed
    | true ↦ elim (failed_dep states step.depends_on) [
      | none ↦ propagate_pass steps states changed
      | some dep ↦ propagate_pass steps (insert step.id (skipped (skip_reason dep)) states) true
    ]
  ]

  -- The passes, on fuel; `none` means that it ran out.
  unfoldable pub propagate_dependency_failures :
      ℕ → List (WorkflowStep H) → States H → Option (States H)
  propagate_dependency_failures zero all_steps states = none
  propagate_dependency_failures (suc fuel) all_steps states =
      let (states', changed) = propagate_pass all_steps states false in
      elim changed [
        | true ↦ propagate_dependency_failures fuel all_steps states'
        | false ↦ some states'
      ]

  -- A step is ready if it is pending and all its dependencies completed.
  abbrev pub is_ready : States H → WorkflowStep H → Bool
  is_ready states step =
      is_pending (lookup step.id states)
      && all (λ dep. is_completed (lookup dep states)) step.depends_on

  step_finished : WorkflowStep H → Exec H → List (Effect H)
  step_finished step ex = elim (lookup step.id ex.run.step_states) [
    | some (completed output duration) ↦ step_completed step.id duration ∷ ex.log
    | some (failed error retries duration) ↦ step_failed step.id error retries ∷ ex.log
    | _ ↦ ex.log
  ]

  abbrev pub checkpoint : Exec H → Exec H
  checkpoint ex = record ex { log = checkpointed ex.run ∷ ex.log }

  module _ (env : Outside H) (default_timeout wave : ℕ) where
    -- A wave of a single step.
    unfoldable pub run_alone : WorkflowStep H → Exec H → Exec H
    unfolding step_finished
    run_alone step ex =
        let inputs = resolve_inputs env wave step ex.run.step_states in
        let started = record ex { log = step_started step.id ∷ ex.log } in
        let ex' = execute_step env default_timeout wave step inputs started in
        checkpoint (record ex' { log = step_finished step ex' })

    -- The results of a wave are merged one by one; a task that panicked leaves no result.
    -- `before` holds the states when the inputs were resolved.
    unfoldable pub merge : States H → List (WorkflowStep H) → Exec H → Exec H
    merge before [] ex = ex
    merge before (step ∷ steps) ex = elim (env.panics wave step) [
      | true ↦ merge before steps ex
      | false ↦
          let inputs = resolve_inputs env wave step before in
          let (state, log) =
            execute_step_standalone env default_timeout wave step inputs ex.run.workflow_id
              ex.log in
          merge before steps (record ex {
            run = record (ex.run) { step_states = insert step.id state ex.run.step_states };
            log = log;
          })
    ]

    unfoldable pub run_wave : List (WorkflowStep H) → Exec H → Exec H
    run_wave (step ∷ []) ex = run_alone step ex
    run_wave steps ex = checkpoint (merge ex.run.step_states steps ex)

  -- The walk, on fuel that bounds the waves and the passes of each; `none` means that it ran out.
  unfoldable pub walk_dag :
      Outside H → ℕ → List (WorkflowStep H) → (fuel wave : ℕ) → Exec H → Option (Exec H)
  walk_dag env default_timeout steps zero wave ex = none
  walk_dag env default_timeout steps (suc fuel) wave ex = elim (is_cancelled ex.run.status) [
    | true ↦ some ex
    | false ↦ elim (propagate_dependency_failures (suc fuel) steps ex.run.step_states) [
      | none ↦ none
      | some states ↦
          let ex' = record ex { run = record (ex.run) { step_states = states } } in
          elim (retain (is_ready states) steps) [
            | [] ↦ some ex'
            | step ∷ ready ↦
                walk_dag env default_timeout steps fuel (suc wave)
                  (run_wave env default_timeout wave (step ∷ ready) ex')
          ]
    ]
  ]
