-- ===== src/Workflow/Run/Cancel.antt =====
-- Cancelling a run, and going on with one that was interrupted.
use botto.Prelude.{
  String, ℕ, suc, ◌≡◌, refl, List, [], ◌∷◌, string_key, arith, All, Bool, true, false,
  if◌then◌else◌, Option, some, none, Bool-cases, inl, inr, contains, Option-cases,
}
use botto.Prelude.Maps.{lookup, insert, lookup-insert}
use botto.Workflow.Types.{Host, WorkflowStep, StepState, is_terminal, skipped, pending}
use botto.Workflow.Dag.{ids}
use botto.Workflow.Step.{Outside, Exec}
use botto.Workflow.Walk.{States, walk_dag}
use botto.Workflow.Run.{cancel, cancel_states, reset_interrupted, add_missing, is_running, values}

module _ {H : Host} where
  -- The state of a step after the run is cancelled.
  abbrev pub cancelled_state : Option (StepState H) → Option (StepState H)
  cancelled_state none = none
  cancelled_state (some state) =
      some (if is_terminal state then state else skipped "workflow cancelled")

  lookup-cancel_states :
      (states : States H) (x : String)
      → lookup x (cancel_states states) ≡ cancelled_state (lookup x states)
  unfolding cancel_states lookup
  lookup-cancel_states [] x = refl
  lookup-cancel_states ((y, state) ∷ states) x = ground (arith, lookup-cancel_states states x)

  terminal_after :
      (states : States H) → All (λ state. is_terminal state ≡ true) (values (cancel_states states))
  unfolding cancel_states is_terminal
  terminal_after [] = tt
  terminal_after ((y, state) ∷ states) = (
    elim (Bool-cases (is_terminal state)) [
      | inl done ↦ rw done done
      | inr unsettled ↦ rw unsettled refl
    ],
    terminal_after states,
  )

  -- After a cancellation every step is in a terminal state, one that was in a terminal state is in
  -- the same state, no other step than those of the run has a state, and a walk, with any fuel but
  -- none, changes nothing.
  pub cancel-stops :
      (env : Outside H) (default_timeout fuel wave : ℕ) (steps : List (WorkflowStep H))
      (now : H.DateTime) (ex : Exec H)
      → All (λ state. is_terminal state ≡ true) (values (cancel now ex).run.step_states)
        × ((x : String)
            → lookup x (cancel now ex).run.step_states
              ≡ cancelled_state (lookup x ex.run.step_states))
        × (walk_dag env default_timeout steps (suc fuel) wave (cancel now ex)
            ≡ some (cancel now ex))
  unfolding cancel walk_dag
  cancel-stops env default_timeout fuel wave steps now ex =
      (terminal_after ex.run.step_states, lookup-cancel_states ex.run.step_states, refl)

  -- The state from which a step goes on when its run is resumed.
  abbrev pub resumed_state : Bool → Option (StepState H) → Option (StepState H)
  resumed_state true none = some pending
  resumed_state false none = none
  resumed_state is_step (some state) = some (if is_running state then pending else state)

  lookup-reset_interrupted :
      (states : States H) (x : String)
      → lookup x (reset_interrupted states) ≡ resumed_state false (lookup x states)
  unfolding reset_interrupted lookup
  lookup-reset_interrupted [] x = refl
  lookup-reset_interrupted ((y, state) ∷ states) x =
      ground (arith, lookup-reset_interrupted states x)

  abbrev or_pending : Bool → Option (StepState H) → Option (StepState H)
  or_pending is_step (some state) = some state
  or_pending true none = some pending
  or_pending false none = none

  lookup-add_missing :
      (steps : List (WorkflowStep H)) (states : States H) (x : String)
      → lookup x (add_missing steps states) ≡ or_pending (contains (ids steps) x) (lookup x states)
  unfolding add_missing
  lookup-add_missing [] states x = ground arith
  lookup-add_missing (s ∷ steps) states x = elim (Option-cases (lookup s.id states)) [
    | inl absent ↦
        rw (absent, add_missing)
          (ground (
            arith,
            lookup-add_missing steps (insert s.id pending states) x,
            lookup-insert s.id x pending states,
            absent,
          ))
    | inr (state, present) ↦
        rw (present, add_missing) (ground (arith, lookup-add_missing steps states x, present))
  ]

  -- When a run goes on, the steps that were running and the steps of the workflow that had no state
  -- start again as pending, and every other state is as it was.
  pub resume-states :
      (steps : List (WorkflowStep H)) (states : States H) (x : String)
      → lookup x (add_missing steps (reset_interrupted states))
        ≡ resumed_state (contains (ids steps) x) (lookup x states)
  resume-states steps states x = ground (
    arith,
    lookup-add_missing steps (reset_interrupted states) x,
    lookup-reset_interrupted states x,
  )
