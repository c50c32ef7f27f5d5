-- ===== src/Workflow/Walk/Ends.antt =====
-- The end of a walk, and what it leaves (`walk_dag` of src/services/workflow/orchestrator.rs).
use botto.Prelude.{
  String, ℕ, zero, suc, ◌<◌, ◌≡◌, refl, ap, ◌∙◌, subst, List, [], ◌∷◌, contains, string_key, arith,
  All, All-map, All-both, none-kept, test-All, Bool, true, false, ◌||◌, Option, some, none,
  Bool-cases, List-cases, inl, inr, retain,
}
use botto.Prelude.Maps.{lookup}
use botto.Workflow.Types.{
  Host, WorkflowStep, StepState, pending, running, completed, failed, skipped,
}
use botto.Workflow.Dag.{ids}
use botto.Workflow.Dag.Order.{IsSchedule}
use botto.Workflow.Dag.Induction.{by_schedule}
use botto.Workflow.Step.{Outside, Exec}
use botto.Workflow.Walk.{
  States, is_pending, is_completed, is_blocked, is_ready, is_cancelled, failed_dep, walk_dag,
}
use botto.Workflow.Walk.Distinct.{Apart, Apart-retain}
use botto.Workflow.Walk.Soundness.{Sound, StateSound}
use botto.Workflow.Walk.Progress.{pending_count}
use botto.Workflow.Walk.Waves.{Stable, propagate-Propagated}
use botto.Workflow.Walk.Tasks.{MayRun, run_wave-lt}
use botto.Workflow.Walk.Whole.{at_states, after_wave, among, ready-MayRun, wave-WaveResult}

module _ {H : Host} where
  -- A step that failed, was skipped or completed.
  abbrev pub is_settled : Option (StepState H) → Bool
  is_settled o = is_completed o || is_blocked o

  abbrev AllSettled : States H → List String → Type 0
  AllSettled states deps = All (λ dep. is_settled (lookup dep states) ≡ true) deps

  unblocked :
      (states : States H) (deps : List String)
      → AllSettled states deps
      → failed_dep states deps ≡ none
      → All (λ dep. is_completed (lookup dep states) ≡ true) deps
  unfolding failed_dep
  unblocked states [] h e = tt
  unblocked states (dep ∷ deps) h e = elim (Bool-cases (is_blocked (lookup dep states))) [
    | inl bad ↦ cc (rw bad at e)
    | inr good ↦ (ground (arith, good, h.0), unblocked states deps h.1 (rw good at e))
  ]

  StateSound-settled :
      (states : States H) (deps : List String) (o : Option (StepState H))
      → StateSound states deps o
      → is_pending o ≡ false
      → is_settled o ≡ true
  StateSound-settled states deps none h p = elim h [ ]
  StateSound-settled states deps (some pending) h p = cc
  StateSound-settled states deps (some (running agent_id started_at)) h p = elim h [ ]
  StateSound-settled states deps (some (completed output duration)) h p = refl
  StateSound-settled states deps (some (failed error retries duration)) h p = refl
  StateSound-settled states deps (some (skipped reason)) h p = refl

  step-settled :
      (states : States H) (s : WorkflowStep H)
      → StateSound states s.depends_on (lookup s.id states)
      → (is_pending (lookup s.id states) ≡ true → failed_dep states s.depends_on ≡ none)
      → is_ready states s ≡ false
      → AllSettled states s.depends_on
      → is_settled (lookup s.id states) ≡ true
  step-settled states s sound stable blocked settled =
      elim (Bool-cases (is_pending (lookup s.id states))) [
        | inr moved ↦ StateSound-settled states s.depends_on (lookup s.id states) sound moved
        | inl waits ↦
            let done = unblocked states s.depends_on settled (stable waits) in
            cc (rw (waits, test-All _ s.depends_on done) at blocked)
      ]

  -- Where the walk ends.
  pub record Ended (steps : List (WorkflowStep H)) (ex ex' : Exec H) : Type 0 where
    pub sound : Sound steps ex'.run.step_states
    pub stable : Stable ex'.run.step_states steps
    pub idle : retain (is_ready ex'.run.step_states) steps ≡ []
    pub status : ex'.run.status ≡ ex.run.status

  module _ (env : Outside H) (default_timeout : ℕ) (steps : List (WorkflowStep H))
      (apart : Apart steps)
      (calm : (wave : ℕ) (s : WorkflowStep H) → env.panics wave s ≡ false) where
    -- A wave settles a step, so that fuel for the pending steps is enough.
    pub walk_dag-Ended :
        (fuel wave : ℕ) (ex : Exec H)
        → Sound steps ex.run.step_states
        → is_cancelled ex.run.status ≡ false
        → pending_count steps ex.run.step_states < fuel
        → (ex' : Exec H) × (walk_dag env default_timeout steps fuel wave ex ≡ some ex')
          × Ended steps ex ex'
    unfolding walk_dag
    walk_dag-Ended zero wave ex sound go enough = absurd (omega arith)
    walk_dag-Ended (suc fuel) wave ex sound go enough =
        let all_steps = among env default_timeout steps apart in
        let (states, passed, p) =
          propagate-Propagated steps (suc fuel) ex.run.step_states all_steps sound enough in
        elim (List-cases (retain (is_ready states) steps)) [
          | inl idle ↦ (
            at_states ex states,
            rw (go, passed, idle, walk_dag) refl,
            record { sound = p.sound; stable = p.stable; idle = idle; status = refl },
          )
          | inr (step, rest, ready) ↦
              let ex1 = at_states ex states in
              let w =
                wave-WaveResult env default_timeout steps apart wave states step rest ex ready
                  p.sound in
              let lt =
                run_wave-lt env default_timeout wave steps step rest ex1 (calm wave step)
                  (subst Apart ready (Apart-retain (is_ready states) steps apart))
                  (subst (All (MayRun env default_timeout wave steps states)) ready
                    (ready-MayRun env default_timeout steps apart wave states))
                  p.sound in
              let (ex', e, d) =
                walk_dag-Ended fuel (suc wave)
                  (after_wave env default_timeout steps apart wave states (step ∷ rest) ex) w.sound
                  (ap is_cancelled w.status ∙ go) (omega (arith, lt, p.le, enough)) in
              (
                ex',
                rw (go, passed, ready, walk_dag) e,
                record {
                  sound = d.sound;
                  stable = d.stable;
                  idle = d.idle;
                  status = d.status ∙ w.status;
                },
              )
        ]

  -- At the end of a walk over a valid graph every step is settled.
  pub Ended-settled :
      (steps : List (WorkflowStep H)) (order : List String) (ex ex' : Exec H)
      → IsSchedule steps order
      → Ended steps ex ex'
      → (x : String) → contains (ids steps) x ≡ true
      → is_settled (lookup x ex'.run.step_states) ≡ true
  Ended-settled steps order ex ex' schedule d =
      by_schedule steps (λ x. is_settled (lookup x ex'.run.step_states) ≡ true)
        (All-map _ _
          (λ s ((fits, calm), blocked). step-settled ex'.run.step_states s fits calm blocked) steps
          (All-both _ _ steps (All-both _ _ steps d.sound d.stable) (none-kept _ steps d.idle)))
        order schedule
