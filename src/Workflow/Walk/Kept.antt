-- ===== src/Workflow/Walk/Kept.antt =====
-- The states that a walk leaves as they are (`walk_dag` of
-- src/services/workflow/orchestrator.rs).
use botto.Prelude.{
  String, ℕ, zero, suc, ◌≡◌, ◌≢◌, refl, sym, ap, ◌∙◌, subst, List, [], ◌∷◌, All, All-map, All-kept,
  Bool, true, false, some, Bool-cases, Option-cases, List-cases, inl, inr, retain, string_key,
  arith,
}
use botto.Prelude.Maps.{lookup, insert, lookup-insert}
use botto.Workflow.Types.{Host, WorkflowStep, StepState, skipped}
use botto.Workflow.Step.{Outside, Exec, step_started, execute_step_standalone, resolve_inputs}
use botto.Workflow.Step.Retries.{execute_step-standalone}
use botto.Workflow.Walk.{
  States, is_pending, is_ready, is_cancelled, failed_dep, propagate_pass,
  propagate_dependency_failures, skip_reason, merge, run_alone, run_wave, walk_dag,
}
use botto.Workflow.Walk.Whole.{at_states}

module _ {H : Host} (x : String) where
  -- A step that is not pending keeps its state.
  abbrev Kept : States H → States H → Type 0
  Kept states states' = is_pending (lookup x states) ≡ false → lookup x states' ≡ lookup x states

  compose-Kept : (a b c : States H) → Kept a b → Kept b c → Kept a c
  compose-Kept a b c f g h = g (ap is_pending (f h) ∙ h) ∙ f h

  pass-Kept :
      (steps : List (WorkflowStep H)) (states : States H) (changed : Bool)
      → Kept states (propagate_pass steps states changed).0
  unfolding propagate_pass
  pass-Kept [] states changed h = refl
  pass-Kept (s ∷ steps) states changed h = elim (Bool-cases (is_pending (lookup s.id states))) [
    | inr settled ↦ rw (settled, propagate_pass) (pass-Kept steps states changed h)
    | inl waits ↦ elim (Option-cases (failed_dep states s.depends_on)) [
      | inl unblocked ↦
          rw (waits, propagate_pass)
            (rw (unblocked, propagate_pass) (pass-Kept steps states changed h))
      | inr (dep, blocked) ↦
          let state : StepState H = skipped (skip_reason dep) in
          let same : lookup x (insert s.id state states) ≡ lookup x states =
            ground (arith, lookup-insert s.id x state states, waits, h) in
          rw (waits, propagate_pass)
            (rw (blocked, propagate_pass)
              (pass-Kept steps (insert s.id state states) true (ap is_pending same ∙ h) ∙ same))
    ]
  ]

  propagate-Kept :
      (fuel : ℕ) (steps : List (WorkflowStep H)) (states states' : States H)
      → propagate_dependency_failures fuel steps states ≡ some states'
      → Kept states states'
  unfolding propagate_dependency_failures
  propagate-Kept zero steps states states' e = cc
  propagate-Kept (suc fuel) steps states states' e =
      let pass = propagate_pass steps states false in
      let once = pass-Kept steps states false in
      elim (Bool-cases pass.1) [
        | inl again ↦ compose-Kept states pass.0 states' once (
            propagate-Kept fuel steps pass.0 states'
              (rw (again, propagate_dependency_failures) at e))
        | inr still ↦
            let same : pass.0 ≡ states' =
              ground (arith, rw (still, propagate_dependency_failures) at e) in
            subst (Kept states) same once
      ]

  module _ (env : Outside H) (default_timeout wave : ℕ) where
    merge-Kept :
        (before : States H) (ready : List (WorkflowStep H)) (ex : Exec H)
        → All (λ s. s.id ≢ x) ready
        → lookup x (merge env default_timeout wave before ready ex).run.step_states
          ≡ lookup x ex.run.step_states
    unfolding merge
    merge-Kept before [] ex others = refl
    merge-Kept before (s ∷ ready) ex others = elim (Bool-cases (env.panics wave s)) [
      | inl lost ↦ rw (lost, merge) (merge-Kept before ready ex others.1)
      | inr done ↦
          let task =
            execute_step_standalone env default_timeout wave s (resolve_inputs env wave s before)
              ex.run.workflow_id ex.log in
          rw (done, merge)
            (merge-Kept before ready _ others.1
              ∙ ground (arith, lookup-insert s.id x task.0 ex.run.step_states, others.0))
    ]

    run_wave-Kept :
        (ready : List (WorkflowStep H)) (ex : Exec H)
        → All (λ s. s.id ≢ x) ready
        → lookup x (run_wave env default_timeout wave ready ex).run.step_states
          ≡ lookup x ex.run.step_states
    unfolding run_wave run_alone merge
    run_wave-Kept [] ex others = refl
    run_wave-Kept (s ∷ []) ex others =
        let begun : Exec H = record ex { log = step_started s.id ∷ ex.log } in
        let inputs = resolve_inputs env wave s ex.run.step_states in
        execute_step-standalone env default_timeout wave s inputs begun ex.run.workflow_id ex.log x
        ∙ ground (arith, others.0)
    run_wave-Kept (s ∷ t ∷ ready) ex others =
        merge-Kept ex.run.step_states (s ∷ t ∷ ready) ex others

  others_ready :
      (states : States H) (steps : List (WorkflowStep H))
      → is_pending (lookup x states) ≡ false
      → All (λ s. s.id ≢ x) (retain (is_ready states) steps)
  others_ready states steps h =
      All-map _ _
        (λ s (u, ready) e. cc (h, waits s ready, ap (λ y. is_pending (lookup y states)) e))
        (retain (is_ready states) steps)
        (All-kept (λ s. Unit) (is_ready states) steps (units steps))
    where
      waits :
          (s : WorkflowStep H) → is_ready states s ≡ true → is_pending (lookup s.id states) ≡ true
      waits s ready = ground (arith, ready)

      units : (ss : List (WorkflowStep H)) → All (λ s. Unit {0}) ss
      units [] = tt
      units (s ∷ ss) = (tt, units ss)

  -- Where a walk ends, every step that was not pending at the start is in the same state: what had
  -- completed, failed or been skipped before is not run again.
  pub walk_dag-Kept :
      (env : Outside H) (default_timeout : ℕ) (steps : List (WorkflowStep H)) (fuel wave : ℕ)
      (ex ex' : Exec H)
      → walk_dag env default_timeout steps fuel wave ex ≡ some ex'
      → is_pending (lookup x ex.run.step_states) ≡ false
      → lookup x ex'.run.step_states ≡ lookup x ex.run.step_states
  unfolding walk_dag
  walk_dag-Kept env default_timeout steps zero wave ex ex' e h = cc
  walk_dag-Kept env default_timeout steps (suc fuel) wave ex ex' e h =
      elim (Bool-cases (is_cancelled ex.run.status)) [
        | inl stop ↦
            let same : ex ≡ ex' = ground (arith, rw (stop, walk_dag) at e) in
            ap (λ (y : Exec H). lookup x y.run.step_states) (sym same)
        | inr go ↦
            elim (Option-cases
              (propagate_dependency_failures (suc fuel) steps ex.run.step_states)) [
                | inl out ↦ cc (rw (go, out, walk_dag) at e)
                | inr (states, passed) ↦
                    let once = propagate-Kept (suc fuel) steps ex.run.step_states states passed h in
                    let h' = ap is_pending once ∙ h in
                    elim (List-cases (retain (is_ready states) steps)) [
                      | inl idle ↦
                          let same : at_states ex states ≡ ex' =
                            ground (arith, rw (go, passed, idle, walk_dag) at e) in
                          ap (λ (y : Exec H). lookup x y.run.step_states) (sym same) ∙ once
                      | inr (s, rest, ready) ↦
                          let ex1 = at_states ex states in
                          let after =
                            run_wave-Kept env default_timeout wave (s ∷ rest) ex1
                              (subst (All (λ t. t.id ≢ x)) ready (others_ready states steps h')) in
                          walk_dag-Kept env default_timeout steps fuel (suc wave)
                            (run_wave env default_timeout wave (s ∷ rest) ex1) ex'
                            (rw (go, passed, ready, walk_dag) at e) (ap is_pending after ∙ h')
                          ∙ after
                          ∙ once
                    ]
              ]
      ]
