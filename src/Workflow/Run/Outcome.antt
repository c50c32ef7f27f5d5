-- ===== src/Workflow/Run/Outcome.antt =====
-- What a whole run comes to.
use botto.Prelude.{
  String, ℕ, ◌<◌, ◌≡◌, refl, List, [], ◌∷◌, contains, string_key, String_discrete, arith, All,
  All-map, All-both, Bool, true, false, ◌||◌, Option, some, none, Bool-cases, inl, inr, ◌⊎◌, length,
  ok, all, any,
}
use botto.Prelude.Maps.{lookup, insert, lookup-insert}
use botto.Workflow.Types.{
  Host, WorkflowStep, WorkflowDefinition, TriggerSource, StepState, RunStatus, pending, is_terminal,
}
use botto.Workflow.Dag.{HashOrder, ids, validate_dag}
use botto.Workflow.Dag.Order.{IsSchedule}
use botto.Workflow.Dag.Induction.{by_schedule}
use botto.Workflow.Dag.Validate.{validate_dag-IsSchedule}
use botto.Workflow.Step.{Outside, Exec, checkpointed_terminal, run_completed}
use botto.Workflow.Walk.{States, is_pending, is_completed, is_cancelled}
use botto.Workflow.Walk.Distinct.{count-Apart}
use botto.Workflow.Walk.Soundness.{Sound, StateSound}
use botto.Workflow.Walk.Progress.{pending_count-le}
use botto.Workflow.Walk.Ends.{Ended, walk_dag-Ended, Ended-settled, is_settled}
use botto.Workflow.Run.{
  is_failed, values, final_status, finalize_run, init_states, finish, fresh, started,
  execute_with_id,
}

module _ {H : Host} where
  init-pending :
      (steps : List (WorkflowStep H)) (states : States H) (x : String)
      → contains (ids steps) x || is_pending (lookup x states) ≡ true
      → is_pending (lookup x (init_states steps states)) ≡ true
  unfolding init_states
  init-pending [] states x h = h
  init-pending (s ∷ steps) states x h =
      init-pending steps (insert s.id pending states) x
        (ground (arith, h, lookup-insert s.id x pending states))

  pending-Sound :
      (states : States H) (deps : List String) (o : Option (StepState H))
      → is_pending o ≡ true
      → StateSound states deps o
  pending-Sound states deps none h = cc
  pending-Sound states deps (some StepState.pending) h = tt
  pending-Sound states deps (some (StepState.running agent_id started_at)) h = cc
  pending-Sound states deps (some (StepState.completed output duration)) h = cc
  pending-Sound states deps (some (StepState.failed error retries duration)) h = cc
  pending-Sound states deps (some (StepState.skipped reason)) h = cc

  listed : (steps : List (WorkflowStep H)) → All (λ s. contains (ids steps) s.id ≡ true) steps
  listed [] = tt
  listed (s ∷ steps) = (ground arith, All-map _ _ (λ t h. ground (arith, h)) steps (listed steps))

  -- The states with which a run starts.
  init-Sound : (steps : List (WorkflowStep H)) → Sound steps (init_states steps [])
  init-Sound steps =
      All-map _ _
        (λ s known.
          pending-Sound _ s.depends_on (lookup s.id (init_states steps []))
            (init-pending steps [] s.id (ground (arith, known))))
        steps (listed steps)

  no_failed :
      (states : States H) (x : String) {state : StepState H}
      → any is_failed (values states) ≡ false
      → lookup x states ≡ some state
      → is_failed state ≡ false
  unfolding lookup
  no_failed [] x h e = cc
  no_failed ((y, st) ∷ states) x {state} h e = ground (arith, no_failed states x {state = state})

  -- A step that ran, did not fail and was not skipped for a failed one has completed.
  unfailed :
      (states : States H) (deps : List String) (o : Option (StepState H))
      → StateSound states deps o
      → is_settled o ≡ true
      → ((state : StepState H) → o ≡ some state → is_failed state ≡ false)
      → All (λ dep. is_completed (lookup dep states) ≡ true) deps
      → is_completed o ≡ true
  unfailed states deps none sound settled none_fail done = cc
  unfailed states deps (some StepState.pending) sound settled none_fail done = cc
  unfailed states deps (some (StepState.running agent_id started_at)) sound settled none_fail done =
      cc
  unfailed states deps (some (StepState.completed output duration)) sound settled none_fail done =
      refl
  unfailed states deps (some (StepState.failed error retries duration)) sound settled none_fail
        done =
      cc (none_fail (StepState.failed error retries duration) refl)
  unfailed states deps (some (StepState.skipped reason)) (dep, in_deps, bad) settled none_fail
        done =
      absurd (clash deps in_deps done)
    where
      clash :
          (ds : List String)
          → contains ds dep ≡ true
          → All (λ d. is_completed (lookup d states) ≡ true) ds
          → ⊥
      clash [] c h = cc
      clash (d ∷ ds) c h = elim (String_discrete d dep) [
        | yes same ↦ ground (arith, h.0, bad, same)
        | no other ↦ clash ds (ground (arith, c, other)) h.1
      ]

  abbrev pub AllSteps : (Option (StepState H) → Bool) → List (WorkflowStep H) → States H → Type 0
  AllSteps test steps states = All (λ s. test (lookup s.id states) ≡ true) steps

  -- What a run that was carried out has come to: the status is what the states of the steps decide,
  -- and it is `failed`, or `completed` with every step completed.
  pub record Outcome (steps : List (WorkflowStep H)) (ex : Exec H) : Type 0 where
    pub settled : AllSteps is_settled steps ex.run.step_states
    pub sound : Sound steps ex.run.step_states
    pub status : ex.run.status ≡ final_status (values ex.run.step_states)
    pub verdict :
        (ex.run.status ≡ RunStatus.failed)
        ⊎ ((ex.run.status ≡ RunStatus.completed) × AllSteps is_completed steps ex.run.step_states)

  AllSteps-of :
      (test : Option (StepState H) → Bool) (steps : List (WorkflowStep H)) (states : States H)
      → ((x : String) → contains (ids steps) x ≡ true → test (lookup x states) ≡ true)
      → AllSteps test steps states
  AllSteps-of test steps states f = All-map _ _ (λ s known. f s.id known) steps (listed steps)

  final_status-cases :
      (states : List (StepState H))
      → (final_status states ≡ RunStatus.failed)
        ⊎ ((final_status states ≡ RunStatus.completed) × (any is_failed states ≡ false))
  unfolding final_status
  final_status-cases states = elim (Bool-cases (all is_terminal states)) [
    | inr unsettled ↦ inl (rw unsettled refl)
    | inl done ↦ elim (Bool-cases (any is_failed states)) [
      | inl bad ↦ inl (rw (done, bad) refl)
      | inr good ↦ inr (rw (done, good) refl, good)
    ]
  ]

  Ended-completed :
      (steps : List (WorkflowStep H)) (order : List String) (ex ex' : Exec H)
      → IsSchedule steps order
      → Ended steps ex ex'
      → any is_failed (values ex'.run.step_states) ≡ false
      → (x : String) → contains (ids steps) x ≡ true
      → is_completed (lookup x ex'.run.step_states) ≡ true
  Ended-completed steps order ex ex' schedule d none_failed =
      let states = ex'.run.step_states in
      by_schedule steps (λ x. is_completed (lookup x states) ≡ true)
        (All-map _ _
          (λ s (fits, known) done.
            unfailed states s.depends_on (lookup s.id states) fits
              (Ended-settled steps order ex ex' schedule d s.id known)
              (λ state e. no_failed states s.id {state = state} none_failed e) done)
          steps (All-both _ _ steps d.sound (listed steps)))
        order schedule

  module _ (hash : HashOrder) (env : Outside H) (default_timeout fuel : ℕ) (now later : H.DateTime)
      (calm : (wave : ℕ) (s : WorkflowStep H) → env.panics wave s ≡ false) where
    -- The walk from sound states, with the final status, ends.
    pub finish-Outcome :
        (steps : List (WorkflowStep H)) (order : List String) (ex : Exec H)
        → IsSchedule steps order
        → Sound steps ex.run.step_states
        → is_cancelled ex.run.status ≡ false
        → length steps < fuel
        → (ex' : Exec H) × (finish hash env default_timeout fuel now later steps ex ≡ some ex')
          × Outcome steps ex'
    unfolding finish finalize_run
    finish-Outcome steps order ex schedule sound go enough =
        let (walked, e, d) =
          walk_dag-Ended env default_timeout steps (count-Apart steps schedule.distinct) calm fuel 0
            ex sound go (omega (arith, pending_count-le steps ex.run.step_states)) in
        (
          record {
            run = finalize_run later walked.run;
            log = checkpointed_terminal (finalize_run later walked.run) ∷ walked.log;
          },
          rw (e, finish) refl,
          record {
            settled =
                AllSteps-of is_settled steps _ (Ended-settled steps order ex walked schedule d);
            sound = d.sound;
            status = refl;
            verdict = elim (final_status-cases (values walked.run.step_states)) [
              | inl bad ↦ inl bad
              | inr (good, none_failed) ↦ inr (
                good,
                AllSteps-of is_completed steps _
                    (Ended-completed steps order ex walked schedule d none_failed),
              )
            ];
          },
        )

    -- If the steps are accepted, no spawned task panics and there is fuel for more waves than there
    -- are steps, then a run ends. Then each step completed, failed or was skipped, a step that ran
    -- had all its dependencies completed, a skipped step has a failed or skipped dependency, and
    -- the run is reported as failed, or as completed if every step completed.
    pub execute_with_id-Outcome :
        (run_id : H.Uuid) (definition : WorkflowDefinition H) (trigger : TriggerSource H)
        (order : List String)
        → validate_dag hash definition.steps ≡ some (ok order)
        → length definition.steps < fuel
        → (ex : Exec H) × (execute_with_id hash env default_timeout fuel now later run_id definition
              trigger
            ≡ some ex)
          × Outcome definition.steps ex
    unfolding execute_with_id
    execute_with_id-Outcome run_id definition trigger order accepted enough =
        let steps = definition.steps in
        let start =
          started hash env default_timeout fuel now later
            (fresh hash env default_timeout fuel now later run_id definition trigger) in
        let (ex, e, o) =
          finish-Outcome steps order start (validate_dag-IsSchedule hash steps accepted)
            (init-Sound steps) refl enough in
        (
          record ex { log = run_completed run_id ∷ ex.log },
          rw (accepted, execute_with_id) (rw (e, execute_with_id) refl),
          record { settled = o.settled; sound = o.sound; status = o.status; verdict = o.verdict },
        )
