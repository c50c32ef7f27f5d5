-- ===== src/Workflow/Walk/Whole.antt =====
-- Soundness of the states over a whole walk (`walk_dag` of
-- src/services/workflow/orchestrator.rs).
use botto.Prelude.{
  ℕ, zero, suc, ◌≡◌, subst, List, [], ◌∷◌, contains, string_key, arith, All, All-map, All-kept,
  All-test, All-both, true, some, Bool-cases, Option-cases, List-cases, inl, inr, retain,
}
use botto.Prelude.Maps.{lookup}
use botto.Workflow.Types.{Host, WorkflowStep}
use botto.Workflow.Dag.{ids}
use botto.Workflow.Step.{Outside, Exec}
use botto.Workflow.Walk.{
  States, is_pending, is_ready, is_cancelled, propagate_dependency_failures, run_wave, walk_dag,
}
use botto.Workflow.Walk.Distinct.{Apart, Apart-retain, each_IsOnly}
use botto.Workflow.Walk.Soundness.{Sound}
use botto.Workflow.Walk.Waves.{Among, propagate-Sound}
use botto.Workflow.Walk.Tasks.{MayRun, WaveResult, run_wave-WaveResult}

module _ {H : Host} where
  abbrev pub at_states : Exec H → States H → Exec H
  at_states ex states = record ex { run = record (ex.run) { step_states = states } }

  own_ids :
      (more : List (WorkflowStep H)) (steps : List (WorkflowStep H))
      → All (λ s. contains (ids steps) s.id ≡ true) steps
  own_ids more [] = tt
  own_ids more (s ∷ steps) =
      (ground arith, All-map _ _ (λ t h. ground (arith, h)) steps (own_ids more steps))

  module _ (env : Outside H) (default_timeout : ℕ) (steps : List (WorkflowStep H))
      (apart : Apart steps) where
    pub among : Among steps steps
    among = All-both _ _ steps (each_IsOnly steps apart) (own_ids [] steps)

    pub ready-MayRun :
        (wave : ℕ) (states : States H)
        → All (MayRun env default_timeout wave steps states) (retain (is_ready states) steps)
    ready-MayRun wave states =
        All-map _ _
          (λ s ((only, known), ready). elim (Bool-cases (is_pending (lookup s.id states))) [
            | inl waits ↦
                (only, known, waits, All-test _ s.depends_on (ground (arith, ready, waits)))
            | inr settled ↦ cc (rw settled at ready)
          ])
          (retain (is_ready states) steps) (All-kept _ (is_ready states) steps among)

    abbrev pub after_wave : ℕ → States H → List (WorkflowStep H) → Exec H → Exec H
    after_wave wave states ready ex = run_wave env default_timeout wave ready (at_states ex states)

    pub wave-WaveResult :
        (wave : ℕ) (states : States H) (step : WorkflowStep H) (rest : List (WorkflowStep H))
        (ex : Exec H)
        → retain (is_ready states) steps ≡ step ∷ rest
        → Sound steps states
        → WaveResult env default_timeout wave steps
            (at_states ex states)
            (after_wave wave states (step ∷ rest) ex)
    wave-WaveResult wave states step rest ex e sound =
        run_wave-WaveResult env default_timeout wave steps (step ∷ rest) _
          (subst Apart e (Apart-retain (is_ready states) steps apart))
          (subst (All (MayRun env default_timeout wave steps states)) e (ready-MayRun wave states))
          sound

    -- If no two steps share an id and the states fit the dependencies at the start, then whatever the
    -- agents do and whichever tasks panic, the states fit them where the walk ends: a step that ran
    -- had all its dependencies completed, a skipped one has a failed or skipped dependency, every step
    -- has a state and none is running.
    pub walk_dag-Sound :
        (fuel wave : ℕ) (ex ex' : Exec H)
        → Sound steps ex.run.step_states
        → walk_dag env default_timeout steps fuel wave ex ≡ some ex'
        → Sound steps ex'.run.step_states
    unfolding walk_dag
    walk_dag-Sound zero wave ex ex' sound e = cc
    walk_dag-Sound (suc fuel) wave ex ex' sound e = elim (Bool-cases (is_cancelled ex.run.status)) [
      | inl stop ↦
          let same : ex ≡ ex' = ground (arith, rw (stop, walk_dag) at e) in
          subst (λ (x : Exec H). Sound steps x.run.step_states) same sound
      | inr go ↦
          elim (Option-cases (propagate_dependency_failures (suc fuel) steps ex.run.step_states)) [
            | inl out ↦ cc (rw (go, out, walk_dag) at e)
            | inr (states, passed) ↦
                let sound' =
                  propagate-Sound steps (suc fuel) ex.run.step_states among sound passed in
                elim (List-cases (retain (is_ready states) steps)) [
                  | inl idle ↦
                      let same : at_states ex states ≡ ex' =
                        ground (arith, rw (go, passed, idle, walk_dag) at e) in
                      subst (λ (x : Exec H). Sound steps x.run.step_states) same sound'
                  | inr (step, rest, ready) ↦
                      walk_dag-Sound fuel (suc wave) (after_wave wave states (step ∷ rest) ex) ex'
                        (wave-WaveResult wave states step rest ex ready sound').sound
                        (rw (go, passed, ready, walk_dag) at e)
                ]
          ]
    ]
