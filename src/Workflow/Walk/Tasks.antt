-- ===== src/Workflow/Walk/Tasks.antt =====
-- What one wave of steps preserves, and that it makes progress.
use botto.Prelude.{
  String, ℕ, ◌<◌, ◌≤◌, ◌≡◌, ◌≢◌, refl, sym, ap, ◌∙◌, subst, List, [], ◌∷◌, contains, string_key,
  arith, All, true, false, some, Bool-cases, inl, inr,
}
use botto.Prelude.Maps.{lookup, insert, lookup-insert}
use botto.Workflow.Types.{Host, WorkflowStep, StepState}
use botto.Workflow.Dag.{ids}
use botto.Workflow.Step.{
  Outside, Exec, Effect, step_started, execute_step, execute_step_standalone, resolve_inputs,
}
use botto.Workflow.Step.Retries.{
  succeeded, gave_up, execute_step_standalone-Settles, execute_step-standalone, execute_step-status,
}
use botto.Workflow.Walk.{States, is_pending, run_alone, run_wave, merge}
use botto.Workflow.Walk.Distinct.{IsOnly, Apart}
use botto.Workflow.Walk.Soundness.{
  Sound, AllCompleted, AllCompleted-Keeps, DidRun, run-StateSound, insert-Keeps, insert-Sound,
  Sound-congr,
}
use botto.Workflow.Walk.Progress.{pending_count, pending_count-insert-lt, pending_count-congr}

module _ {H : Host} where
  DidRun-is_pending : (state : StepState H) → DidRun state → is_pending (some state) ≡ false
  DidRun-is_pending (StepState.completed output duration) r = refl
  DidRun-is_pending (StepState.failed error retries duration) r = refl
  DidRun-is_pending (StepState.skipped reason) r = elim r [ ]
  DidRun-is_pending StepState.pending r = elim r [ ]
  DidRun-is_pending (StepState.running agent_id started_at) r = elim r [ ]

  module _ (env : Outside H) (default_timeout wave : ℕ) where
    standalone-DidRun :
        (step : WorkflowStep H) (inputs : List (String × H.Value)) (workflow_id : H.Uuid)
        (log : List (Effect H))
        → DidRun (execute_step_standalone env default_timeout wave step inputs workflow_id log).0
    unfolding execute_step_standalone
    standalone-DidRun step inputs workflow_id log = elim (Bool-cases (env.available wave step)) [
      | inr absent ↦ rw (absent, execute_step_standalone) tt
      | inl there ↦
          elim (execute_step_standalone-Settles env default_timeout wave step inputs workflow_id log
            there) [
              | succeeded k r low high fails found good e ↦ subst DidRun (sym e) tt
              | gave_up error duration fails e ↦ subst DidRun (sym e) tt
            ]
    ]

    module _ (steps : List (WorkflowStep H)) where
      -- A step of the workflow that may run.
      abbrev pub MayRun : States H → WorkflowStep H → Type 0
      MayRun states s =
          IsOnly steps s
          × (contains (ids steps) s.id ≡ true)
          × (is_pending (lookup s.id states) ≡ true)
          × AllCompleted states s.depends_on

      pub record WaveResult (ex ex' : Exec H) : Type 0 where
        pub sound : Sound steps ex'.run.step_states
        pub le : pending_count steps ex'.run.step_states ≤ pending_count steps ex.run.step_states
        pub status : ex'.run.status ≡ ex.run.status

      -- A step that may run gets the state of a step that ran.
      module _ (step : WorkflowStep H) (state : StepState H) (states : States H)
          (may : MayRun states step) (ran : DidRun state) where
        ran-Sound : Sound steps states → Sound steps (insert step.id state states)
        ran-Sound =
            insert-Sound steps step state states may.0 may.2
              (run-StateSound states step.depends_on state ran may.3)

        ran-lt : pending_count steps (insert step.id state states) < pending_count steps states
        ran-lt =
            pending_count-insert-lt step.id state states may.2 (DidRun-is_pending state ran) steps
              may.1

        MayRun-insert :
            (t : WorkflowStep H)
            → t.id ≢ step.id
            → MayRun states t
            → MayRun (insert step.id state states) t
        MayRun-insert t other (only, known, waits, ready) = (
          only,
          known,
          ground (arith, lookup-insert step.id t.id state states),
          AllCompleted-Keeps states (insert step.id state states) t.depends_on
              (insert-Keeps step.id state states may.2) ready,
        )

        MayRun-rest :
            (rest : List (WorkflowStep H))
            → All (λ t. t.id ≢ step.id) rest
            → All (MayRun states) rest
            → All (MayRun (insert step.id state states)) rest
        MayRun-rest [] others h = tt
        MayRun-rest (t ∷ rest) others h =
            (MayRun-insert t others.0 h.0, MayRun-rest rest others.1 h.1)

      -- Following one step of the merge by the others.
      then-WaveResult :
          (step : WorkflowStep H) (state : StepState H) (ex ex' ex'' : Exec H)
          → ex'.run.step_states ≡ insert step.id state ex.run.step_states
          → ex'.run.status ≡ ex.run.status
          → MayRun ex.run.step_states step
          → DidRun state
          → WaveResult ex' ex''
          → WaveResult ex ex''
      then-WaveResult step state ex ex' ex'' states status may ran w =
          let lt = ran-lt step state ex.run.step_states may ran in
          record {
            sound = w.sound;
            le = omega (arith, w.le, lt, ap (pending_count steps) states);
            status = w.status ∙ status;
          }

      merge-WaveResult :
          (before : States H) (rest : List (WorkflowStep H)) (ex : Exec H)
          → Apart rest
          → All (MayRun ex.run.step_states) rest
          → Sound steps ex.run.step_states
          → WaveResult ex (merge env default_timeout wave before rest ex)
      unfolding merge
      merge-WaveResult before [] ex apart may sound = record {
        sound = sound;
        le = omega arith;
        status = refl;
      }
      merge-WaveResult before (step ∷ rest) ex apart may sound =
          elim (Bool-cases (env.panics wave step)) [
            | inl lost ↦ rw (lost, merge) (merge-WaveResult before rest ex apart.1 may.1 sound)
            | inr done ↦
                let inputs = resolve_inputs env wave step before in
                let task =
                  execute_step_standalone env default_timeout wave step inputs ex.run.workflow_id
                    ex.log in
                let ran = standalone-DidRun step inputs ex.run.workflow_id ex.log in
                let states = ex.run.step_states in
                let ex' : Exec H = record ex {
                  run = record (ex.run) { step_states = insert step.id task.0 states };
                  log = task.1;
                } in
                rw (done, merge)
                  (then-WaveResult step task.0 ex ex'
                    (merge env default_timeout wave before rest ex') refl refl may.0 ran
                    (merge-WaveResult before rest ex' apart.1
                      (MayRun-rest step task.0 states may.0 ran rest apart.0 may.1)
                      (ran-Sound step task.0 states may.0 ran sound)))
          ]

      -- If the first task of a wave does not panic, a pending step is settled.
      merge-lt :
          (before : States H) (step : WorkflowStep H) (rest : List (WorkflowStep H)) (ex : Exec H)
          → env.panics wave step ≡ false
          → Apart (step ∷ rest)
          → All (MayRun ex.run.step_states) (step ∷ rest)
          → Sound steps ex.run.step_states
          → pending_count steps
              (merge env default_timeout wave before (step ∷ rest) ex).run.step_states
            < pending_count steps ex.run.step_states
      unfolding merge
      merge-lt before step rest ex calm apart may sound =
          let inputs = resolve_inputs env wave step before in
          let task =
            execute_step_standalone env default_timeout wave step inputs ex.run.workflow_id
              ex.log in
          let ran = standalone-DidRun step inputs ex.run.workflow_id ex.log in
          let states = ex.run.step_states in
          let ex' : Exec H = record ex {
            run = record (ex.run) { step_states = insert step.id task.0 states };
            log = task.1;
          } in
          let w =
            merge-WaveResult before rest ex' apart.1
              (MayRun-rest step task.0 states may.0 ran rest apart.0 may.1)
              (ran-Sound step task.0 states may.0 ran sound) in
          rw (calm, merge) (omega (arith, w.le, ran-lt step task.0 states may.0 ran))

      alone-WaveResult :
          (step : WorkflowStep H) (ex : Exec H)
          → MayRun ex.run.step_states step
          → Sound steps ex.run.step_states
          → let ex' = run_alone env default_timeout wave step ex in
            WaveResult ex ex'
            × (pending_count steps ex'.run.step_states < pending_count steps ex.run.step_states)
      unfolding run_alone
      alone-WaveResult step ex may sound =
          let inputs = resolve_inputs env wave step ex.run.step_states in
          let begun : Exec H = record ex { log = step_started step.id ∷ ex.log } in
          let task =
            execute_step_standalone env default_timeout wave step inputs ex.run.workflow_id
              ex.log in
          let ran = standalone-DidRun step inputs ex.run.workflow_id ex.log in
          let states = ex.run.step_states in
          let ex' = execute_step env default_timeout wave step inputs begun in
          let same : (id : String)
              → lookup id (insert step.id task.0 states) ≡ lookup id ex'.run.step_states =
            λ id.
              lookup-insert step.id id task.0 states
              ∙ sym (
                  execute_step-standalone env default_timeout wave step inputs begun
                    ex.run.workflow_id ex.log id) in
          let count =
            pending_count-congr steps (insert step.id task.0 states) ex'.run.step_states same in
          let lt = ran-lt step task.0 states may ran in
          (
            record {
              sound =
                  Sound-congr steps (insert step.id task.0 states) ex'.run.step_states same
                    (ran-Sound step task.0 states may ran sound);
              le = omega (arith, count, lt);
              status = execute_step-status env default_timeout wave step inputs begun;
            },
            omega (arith, count, lt),
          )

      pub run_wave-WaveResult :
          (ready : List (WorkflowStep H)) (ex : Exec H)
          → Apart ready
          → All (MayRun ex.run.step_states) ready
          → Sound steps ex.run.step_states
          → WaveResult ex (run_wave env default_timeout wave ready ex)
      unfolding run_wave merge
      run_wave-WaveResult [] ex apart may sound = record {
        sound = sound;
        le = omega arith;
        status = refl;
      }
      run_wave-WaveResult (step ∷ []) ex apart may sound = (alone-WaveResult step ex may.0 sound).0
      run_wave-WaveResult (step ∷ step' ∷ rest) ex apart may sound =
          let w = merge-WaveResult ex.run.step_states (step ∷ step' ∷ rest) ex apart may sound in
          record { sound = w.sound; le = w.le; status = w.status }

      pub run_wave-lt :
          (step : WorkflowStep H) (rest : List (WorkflowStep H)) (ex : Exec H)
          → env.panics wave step ≡ false
          → Apart (step ∷ rest)
          → All (MayRun ex.run.step_states) (step ∷ rest)
          → Sound steps ex.run.step_states
          → pending_count steps (run_wave env default_timeout wave (step ∷ rest) ex).run.step_states
            < pending_count steps ex.run.step_states
      unfolding run_wave
      run_wave-lt step [] ex calm apart may sound = (alone-WaveResult step ex may.0 sound).1
      run_wave-lt step (step' ∷ rest) ex calm apart may sound =
          merge-lt ex.run.step_states step (step' ∷ rest) ex calm apart may sound
