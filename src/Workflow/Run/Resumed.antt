-- ===== src/Workflow/Run/Resumed.antt =====
-- What a run comes to that goes on after an interruption.
use botto.Prelude.{
  String, ℕ, ◌<◌, ◌≡◌, refl, List, [], ◌∷◌, Bool, false, if◌then◌else◌, some, length, ok, err,
}
use botto.Workflow.Types.{
  Host, WorkflowStep, WorkflowDefinition, WorkflowRun, RunStatus, is_terminal_run,
}
use botto.Workflow.Dag.{HashOrder, validate_dag}
use botto.Workflow.Dag.Validate.{validate_dag-IsSchedule}
use botto.Workflow.Step.{Outside, Exec, checkpointed}
use botto.Workflow.Walk.Soundness.{Sound}
use botto.Workflow.Run.{resume, not_saved, add_missing, reset_interrupted}
use botto.Workflow.Run.Outcome.{Outcome, finish-Outcome}

module _ {H : Host} (hash : HashOrder) (env : Outside H) (default_timeout fuel : ℕ)
    (now later : H.DateTime)
    (calm : (wave : ℕ) (s : WorkflowStep H) → env.panics wave s ≡ false) where
  -- If the steps are accepted, the run is loaded and not terminal, the states from which it goes on
  -- fit the dependencies, no spawned task panics and there is fuel for more waves than there are
  -- steps, then the resumed run ends as a run from the start does, and it is returned if its last
  -- checkpoint is written; else there is an error.
  pub resume-Outcome :
      (definition : WorkflowDefinition H) (run : WorkflowRun H) (saved : Bool) (order : List String)
      → validate_dag hash definition.steps ≡ some (ok order)
      → is_terminal_run run.status ≡ false
      → Sound definition.steps (add_missing definition.steps (reset_interrupted run.step_states))
      → length definition.steps < fuel
      → (ex : Exec H) × (resume hash env default_timeout fuel now later definition (some run) saved
          ≡ some (if saved then ok ex else err not_saved))
        × Outcome definition.steps ex
  unfolding resume
  resume-Outcome definition run saved order accepted unfinished sound enough =
      let steps = definition.steps in
      let ready : WorkflowRun H = record run {
        status = RunStatus.running;
        step_states = add_missing steps (reset_interrupted run.step_states);
      } in
      let start : Exec H = record { run = ready; log = checkpointed ready ∷ [] } in
      let (ex, e, o) =
        finish-Outcome hash env default_timeout fuel now later calm steps order start
          (validate_dag-IsSchedule hash steps accepted) sound refl enough in
      (ex, rw (accepted, resume) (rw (unfinished, resume) (rw (e, resume) refl)), o)
