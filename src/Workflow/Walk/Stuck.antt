-- ===== src/Workflow/Walk/Stuck.antt =====
-- What a wave of tasks that panic comes to.
use botto.Prelude.{
  ℕ, zero, suc, ◌≡◌, refl, ap, List, [], ◌∷◌, Bool, true, false, some, none, Bool-cases, inl, inr,
  retain, string_key,
}
use botto.Prelude.Maps.{lookup}
use botto.Workflow.Types.{Host, WorkflowStep}
use botto.Workflow.Step.{Outside, Exec}
use botto.Workflow.Walk.{
  States, is_pending, is_ready, is_cancelled, propagate_pass, propagate_dependency_failures, merge,
  run_wave, walk_dag, checkpoint,
}
use botto.Workflow.Walk.Waves.{Stable}

module _ {H : Host} where
  pass-Stable :
      (steps : List (WorkflowStep H)) (states : States H) (changed : Bool)
      → Stable states steps
      → propagate_pass steps states changed ≡ (states, changed)
  unfolding propagate_pass
  pass-Stable [] states changed h = refl
  pass-Stable (s ∷ steps) states changed h = elim (Bool-cases (is_pending (lookup s.id states))) [
    | inr settled ↦ rw (settled, propagate_pass) (pass-Stable steps states changed h.1)
    | inl waits ↦
        rw (waits, propagate_pass)
          (rw (h.0 waits, propagate_pass) (pass-Stable steps states changed h.1))
  ]

  propagate-Stable :
      (fuel : ℕ) (steps : List (WorkflowStep H)) (states : States H)
      → Stable states steps
      → propagate_dependency_failures (suc fuel) steps states ≡ some states
  unfolding propagate_dependency_failures
  propagate-Stable fuel steps states h =
      rw (pass-Stable steps states false h, propagate_dependency_failures)
        (ap (λ (r : States H × Bool). some r.0) (pass-Stable steps states false h))

  module _ (env : Outside H) (default_timeout : ℕ)
      (panics : (wave : ℕ) (s : WorkflowStep H) → env.panics wave s ≡ true) where
    merge-panics :
        (wave : ℕ) (before : States H) (steps : List (WorkflowStep H)) (ex : Exec H)
        → merge env default_timeout wave before steps ex ≡ ex
    unfolding merge
    merge-panics wave before [] ex = refl
    merge-panics wave before (s ∷ steps) ex =
        rw (panics wave s, merge) (merge-panics wave before steps ex)

    -- If every spawned task panics, and two steps or more are ready where no pending step has a
    -- failed or skipped dependency, then the walk does not end: the steps stay pending and the same
    -- wave starts again, whatever the fuel.
    pub walk_dag-stuck :
        (steps : List (WorkflowStep H)) (s t : WorkflowStep H) (rest : List (WorkflowStep H))
        (fuel wave : ℕ) (ex : Exec H)
        → is_cancelled ex.run.status ≡ false
        → Stable ex.run.step_states steps
        → retain (is_ready ex.run.step_states) steps ≡ s ∷ t ∷ rest
        → walk_dag env default_timeout steps fuel wave ex ≡ none
    unfolding walk_dag run_wave
    walk_dag-stuck steps s t rest zero wave ex go stable ready = refl
    walk_dag-stuck steps s t rest (suc fuel) wave ex go stable ready =
        let states = ex.run.step_states in
        let still = merge-panics wave states (s ∷ t ∷ rest) ex in
        rw (go, propagate-Stable fuel steps states stable, ready, walk_dag)
          (rw still (walk_dag-stuck steps s t rest fuel (suc wave) (checkpoint ex) go stable ready))
