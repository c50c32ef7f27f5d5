-- ===== src/Workflow/Walk/Waves.antt =====
-- What the passes and the waves of the walk preserve, and how they make progress.
use botto.Prelude.{
  String, ℕ, zero, suc, ◌<◌, ◌≤◌, ◌≡◌, refl, ap, List, [], ◌∷◌, contains, string_key, arith, All,
  Bool, true, false, some, none, Bool-cases, Option-cases, inl, inr, ◌⊎◌, subst,
}
use botto.Prelude.Maps.{lookup, insert}
use botto.Workflow.Types.{Host, WorkflowStep, StepState, skipped}
use botto.Workflow.Dag.{ids}
use botto.Workflow.Walk.{
  States, is_pending, is_blocked, failed_dep, propagate_pass, propagate_dependency_failures,
  skip_reason,
}
use botto.Workflow.Walk.Distinct.{IsOnly}
use botto.Workflow.Walk.Soundness.{Sound, insert-Sound}
use botto.Workflow.Walk.Progress.{pending_count, pending_count-insert-lt}

module _ {H : Host} where
  failed_dep-some :
      (states : States H) (deps : List String) {dep : String}
      → failed_dep states deps ≡ some dep
      → (contains deps dep ≡ true) × (is_blocked (lookup dep states) ≡ true)
  unfolding failed_dep
  failed_dep-some states [] e = cc
  failed_dep-some states (d ∷ deps) {dep} e =
      ground (arith, failed_dep-some states deps {dep = dep})

  -- No pending step waits for one that failed or was skipped.
  abbrev pub Stable : States H → List (WorkflowStep H) → Type 0
  Stable states steps =
      All (λ s. is_pending (lookup s.id states) ≡ true → failed_dep states s.depends_on ≡ none)
        steps

  module _ (steps : List (WorkflowStep H)) where
    -- The steps that are passed over are steps of the workflow, alone with their ids.
    abbrev pub Among : List (WorkflowStep H) → Type 0
    Among rest = All (λ s. IsOnly steps s × (contains (ids steps) s.id ≡ true)) rest

    record PassResult (rest : List (WorkflowStep H)) (states : States H) (changed : Bool)
        (states' : States H) (changed' : Bool) : Type 0 where
      sound : Sound steps states'
      less : (changed' ≡ changed) ⊎ (pending_count steps states' < pending_count steps states)
      le : pending_count steps states' ≤ pending_count steps states
      quiet : changed' ≡ false → (changed ≡ false) × (states' ≡ states) × Stable states rest

    pass-PassResult :
        (rest : List (WorkflowStep H)) (states : States H) (changed : Bool)
        → Among rest
        → Sound steps states
        → let r = propagate_pass rest states changed in PassResult rest states changed r.0 r.1
    unfolding propagate_pass
    pass-PassResult [] states changed among sound = record {
      sound = sound;
      less = inl refl;
      le = omega arith;
      quiet = λ e. (e, refl, tt);
    }
    pass-PassResult (s ∷ rest) states changed among sound =
        elim (Bool-cases (is_pending (lookup s.id states))) [
          | inr settled ↦
              let r = pass-PassResult rest states changed among.1 sound in
              rw (settled, propagate_pass)
                (record {
                  sound = r.sound;
                  less = r.less;
                  le = r.le;
                  quiet = λ e. let (c, same, stable) = r.quiet e in (c, same, (λ p. cc, stable));
                })
          | inl waits ↦ elim (Option-cases (failed_dep states s.depends_on)) [
            | inl unblocked ↦
                let r = pass-PassResult rest states changed among.1 sound in
                rw (waits, propagate_pass)
                  (rw (unblocked, propagate_pass)
                    (record {
                      sound = r.sound;
                      less = r.less;
                      le = r.le;
                      quiet = λ e.
                          let (c, same, stable) = r.quiet e in (c, same, (λ p. unblocked, stable));
                    }))
            | inr (dep, blocked) ↦
                let state : StepState H = skipped (skip_reason dep) in
                let (listed, bad) = failed_dep-some states s.depends_on blocked in
                let r =
                  pass-PassResult rest (insert s.id state states) true among.1
                    (insert-Sound steps s state states among.0.0 waits (dep, listed, bad) sound) in
                let lt = pending_count-insert-lt s.id state states waits refl steps among.0.1 in
                rw (waits, propagate_pass)
                  (rw (blocked, propagate_pass)
                    (record {
                      sound = r.sound;
                      less = inr (omega (arith, r.le, lt));
                      le = omega (arith, r.le, lt);
                      quiet = λ e. let (c, same, stable) = r.quiet e in cc;
                    }))
          ]
        ]

    -- What the passes leave: with enough fuel they end.
    pub record Propagated (states states' : States H) : Type 0 where
      pub sound : Sound steps states'
      pub le : pending_count steps states' ≤ pending_count steps states
      pub stable : Stable states' steps

    pub propagate-Propagated :
        (fuel : ℕ) (states : States H)
        → Among steps
        → Sound steps states
        → pending_count steps states < fuel
        → (states' : States H) × (propagate_dependency_failures fuel steps states ≡ some states')
          × Propagated states states'
    unfolding propagate_dependency_failures
    propagate-Propagated zero states among sound enough = absurd (omega arith)
    propagate-Propagated (suc fuel) states among sound enough =
        let pass = propagate_pass steps states false in
        let r = pass-PassResult steps states false among sound in
        elim (Bool-cases pass.1) [
          | inl again ↦
              let lt : pending_count steps pass.0 < pending_count steps states =
                ground (arith, r.less, again) in
              let (states', e, p) =
                propagate-Propagated fuel pass.0 among r.sound (omega (arith, lt)) in
              (
                states',
                rw (again, propagate_dependency_failures) e,
                record { sound = p.sound; le = omega (arith, p.le, lt); stable = p.stable },
              )
          | inr still ↦
              let (c, same, stable) = r.quiet still in
              (
                states,
                rw (still, propagate_dependency_failures) (ap some same),
                record { sound = sound; le = omega arith; stable = stable },
              )
        ]

    -- However much fuel there is, what the passes leave is sound.
    pub propagate-Sound :
        (fuel : ℕ) (states : States H) {states' : States H}
        → Among steps
        → Sound steps states
        → propagate_dependency_failures fuel steps states ≡ some states'
        → Sound steps states'
    unfolding propagate_dependency_failures
    propagate-Sound zero states among sound e = cc
    propagate-Sound (suc fuel) states {states'} among sound e =
        let pass = propagate_pass steps states false in
        let r = pass-PassResult steps states false among sound in
        elim (Bool-cases pass.1) [
          | inl again ↦
              propagate-Sound fuel pass.0 {states' = states'} among r.sound
                (rw (again, propagate_dependency_failures) at e)
          | inr still ↦
              let same : pass.0 ≡ states' =
                ground (arith, rw (still, propagate_dependency_failures) at e) in
              subst (Sound steps) same r.sound
        ]
