-- ===== src/Workflow/Session/Rounds.antt =====
-- The states of src/services/workflow/session.rs, from `transition_to_planning` to `run_evaluation`,
-- against the session's step relation.
use botto.Prelude.{String, ℕ, suc, ◌+◌, List, some, ◌≡◌, refl, arith, leb}
use botto.Prelude.Int.{ℤ}
use botto.Workflow.Types.{Host}
use botto.Workflow.Session.Types.{
  SessionState, SessionPlan, PlanStep, EvaluatorVerdict, PlanResult, created, planning, executing,
  evaluating, adapting,
}
use botto.Workflow.Session.World.{Services, SessionManagerConfig, World}
use botto.Workflow.Session.Escalation.{stamp}
use botto.Workflow.Session.Planning.{
  transition_to_planning, load_workflow_description, clarification_answers, accept_planning,
  run_planning, adopt_plan, ai_replan, run_replanning,
}
use botto.Workflow.Session.Execution.{
  begin_step, run_generator, end_execution, run_next_step, find_next_step, all_steps_complete,
}
use botto.Workflow.Session.Drive.{complete_session, reject_outcome, run_evaluation}
use botto.Workflow.Session.After.{
  After, returns, After-bind, After-mono, branch-After, on_option-After, lift-After, ok_or-After,
  lift_context-After, Owned, Holds, settled-Owned, checkpoint_session-After, touch-After,
  append_trace-After, insert_effect-After,
}
use botto.Workflow.Session.Relation.{SessionStep, adopted}
use botto.Workflow.Session.Outcomes.{
  fail_session-After, escalate_failures-After, handle_outcome-After,
}

module _ {H : Host} (S : Services H) (config : SessionManagerConfig H) where
  -- What a round refines.
  abbrev pub Moved : SessionState H → Unit {0} → World H → Type 0
  Moved s = Holds S (SessionStep config s)

  pub transition_to_planning-After :
      (w : World H)
      → Owned S w
      → w.session.status ≡ created
      → After (Moved w.session) (Owned S) (transition_to_planning S config w)
  unfolding transition_to_planning
  transition_to_planning-After w owned e = After-bind (
      returns (
        After-bind (
          touch-After S _
            λ now t. checkpoint_session-After S _ owned λ t'. (refl, SessionStep.started e now))))

  -- Steps, from the plan to the outcome.
  run_generator-After :
      (name : String) (plan : SessionPlan) (step : PlanStep) (w : World H)
      → Owned S w
      → w.session.status ≡ executing
      → w.session.plan ≡ some plan
      → find_next_step plan w.session.step_outputs ≡ some step
      → After (Moved w.session) (Owned S) (run_generator S config name step w)
  unfolding run_generator begin_step
  run_generator-After name plan step w owned e p f = After-bind (
      After-bind (
        returns (
          After-bind (
            touch-After S _ λ now t. After-bind (
              checkpoint_session-After S _ owned λ t'. After-bind (
                returns (
                  append_trace-After S _ _ _ _ λ sent t''. After-bind (
                    returns (
                      After-bind (
                        returns (
                          After-bind (
                            lift_context-After S _ _ _ (settled-Owned S _) λ outcome.
                              After-mono
                                (λ _ _ (stored, result).
                                  (stored, SessionStep.stepped e p f now result))
                                (handle_outcome-After S config name step outcome _
                                  (settled-Owned S _))))))))))))))

  end_execution-After :
      (plan : SessionPlan) (w : World H)
      → Owned S w
      → w.session.status ≡ executing
      → w.session.plan ≡ some plan
      → After (Moved w.session) (Owned S) (end_execution S config plan w)
  unfolding end_execution
  end_execution-After plan w owned e p = After-bind (
      returns (
        branch-After _ _ _ (all_steps_complete plan w.session.step_outputs)
          (λ complete. After-bind (
            returns (
              After-bind (
                touch-After S _ λ now t.
                  checkpoint_session-After S _ owned
                    λ t'. (refl, SessionStep.all_done e p complete now)))))
          (λ stuck.
            fail_session-After S config _ w _ owned
              (SessionStep.gave_way (rw (e) refl) w.session))))

  pub run_next_step-After :
      (name : String) (w : World H)
      → Owned S w
      → w.session.status ≡ executing
      → After (Moved w.session) (Owned S) (run_next_step S config name w)
  unfolding run_next_step
  run_next_step-After name w owned e = After-bind (
      returns (
        After-bind (
          ok_or-After _ _ w.session.plan owned λ plan p.
            on_option-After _ _ _ (find_next_step plan w.session.step_outputs)
              (λ over. end_execution-After plan w owned e p)
              (λ step f. run_generator-After name plan step w owned e p f))))

  -- The plan, and what revises it.
  load_workflow_description-After :
      {Q : String → World H → Type 0} (w : World H)
      → Owned S w
      → ((description : String) (t : ℕ) → Q description (record w { tick = t }))
      → After Q (Owned S) (load_workflow_description S config w)
  unfolding load_workflow_description
  load_workflow_description-After w owned q = After-bind (
      returns (
        After-bind (
          returns (
            After-bind (
              lift-After _ _ owned
                λ found. After-bind (ok_or-After _ _ found owned λ workflow _. returns (q _ _)))))))

  clarification_answers-After :
      {Q : List String → World H → Type 0} (w : World H)
      → ((answers : List String) (t : ℕ) → Q answers (record w { tick = t }))
      → After Q (Owned S) (clarification_answers S config w)
  unfolding clarification_answers
  clarification_answers-After w q = After-bind (
      returns
        (branch-After _ _ _ _ (λ _. After-bind (returns (returns (q _ _)))) (λ _. returns (q _ _))))

  accept_planning-After :
      (description : String) (result : PlanResult) (w : World H)
      → Owned S w
      → w.session.status ≡ planning
      → After (Moved w.session) (Owned S) (accept_planning S config description result w)
  unfolding accept_planning
  accept_planning-After description (PlanResult.plan plan) w owned e = After-bind (
      append_trace-After S _ _ _ _ λ sent t. After-bind (
        returns (
          After-bind (
            touch-After S _ λ now t'. After-bind (
              checkpoint_session-After S _ owned
                λ t''. returns (refl, SessionStep.planned e plan now))))))
  accept_planning-After description (PlanResult.needs_clarification questions reason) w owned e =
      After-bind (
        append_trace-After S _ _ _ _ λ sent t. After-bind (
          returns (
            After-bind (
              returns (
                After-bind (
                  returns (
                    After-bind (
                      touch-After S _ λ now t'. After-bind (
                        checkpoint_session-After S _ owned λ t''. After-bind (
                          insert_effect-After S _ _
                            λ failure sent' u. returns (refl, SessionStep.asked e _ now)))))))))))

  pub run_planning-After :
      (w : World H)
      → Owned S w
      → w.session.status ≡ planning
      → After (Moved w.session) (Owned S) (run_planning S config w)
  unfolding run_planning
  run_planning-After w owned e = After-bind (
      returns (
        After-bind (
          load_workflow_description-After w owned λ description t. After-bind (
            clarification_answers-After _ λ answers t'. After-bind (
              returns (
                After-bind (
                  lift_context-After S _ _ _ owned
                    λ result. accept_planning-After description result _ owned e)))))))

  adopt_plan-After :
      (plan : SessionPlan) (w : World H) (P : SessionState H → Type 0)
      → Owned S w
      → ((now : ℤ) → P (adopted plan now w.session))
      → After (Holds S P) (Owned S) (adopt_plan S config plan w)
  unfolding adopt_plan
  adopt_plan-After plan w P owned p = After-bind (
      returns (
        After-bind (
          touch-After S _ λ now t.
            After-bind (returns (checkpoint_session-After S _ owned λ t'. (refl, p now))))))

  pub run_replanning-After :
      (w : World H)
      → Owned S w
      → w.session.status ≡ adapting
      → After (Moved w.session) (Owned S) (run_replanning S config w)
  unfolding run_replanning ai_replan
  run_replanning-After w owned e = After-bind (
      returns (
        After-bind (
          ok_or-After _ _ w.session.plan owned λ plan p.
            on_option-After _ _ _ w.session.pending_modification
              (λ absent. After-bind (
                returns (
                  After-bind (
                    returns (
                      After-bind (
                        lift_context-After S _ _ _ owned λ revised.
                          adopt_plan-After revised (record w { tick = suc w.tick }) _ owned
                            (SessionStep.revised e absent revised)))))))
              (λ m present.
                After-bind
                  (returns (adopt_plan-After _ _ _ owned (SessionStep.modified e p present)))))))

  complete_session-After :
      (w : World H)
      → Owned S w
      → w.session.status ≡ evaluating
      → After (Moved w.session) (Owned S) (complete_session S config w)
  unfolding complete_session stamp
  complete_session-After w owned e = After-bind (
      returns (
        After-bind (
          After-bind (
            returns (
              returns (
                After-bind (
                  touch-After S _ λ now t. After-bind (
                    checkpoint_session-After S _ owned λ t'. After-bind (
                      append_trace-After S _ _ _ _
                        λ sent t''. returns (refl, SessionStep.passed e _ _))))))))))

  reject_outcome-After :
      (name : String) (plan : SessionPlan) (verdict : EvaluatorVerdict H) (w : World H)
      → Owned S w
      → w.session.status ≡ evaluating
      → w.session.plan ≡ some plan
      → After (Moved w.session) (Owned S) (reject_outcome S config name verdict w)
  unfolding reject_outcome
  reject_outcome-After name plan verdict w owned e p = After-bind (
      returns (
        After-bind (
          returns (
            branch-After _ _ _ (leb config.max_session_retries (w.session.retry_count + 1))
              (λ last.
                escalate_failures-After S config name "session" _ _ _ _ owned
                  λ m now. SessionStep.given_up e (ground (arith, last)) verdict m now)
              (λ more. After-bind (
                returns (
                  After-bind (
                    touch-After S _ λ now t. checkpoint_session-After S _ owned λ t'.
                      (refl, SessionStep.rejected e p (ground (arith, more)) verdict now)))))))))

  pub run_evaluation-After :
      (name : String) (w : World H)
      → Owned S w
      → w.session.status ≡ evaluating
      → After (Moved w.session) (Owned S) (run_evaluation S config name w)
  unfolding run_evaluation
  run_evaluation-After name w owned e = After-bind (
      returns (
        After-bind (
          ok_or-After _ _ w.session.plan owned λ plan p. After-bind (
            returns (
              After-bind (
                lift_context-After S _ _ _ owned λ verdict. After-bind (
                  append_trace-After S _ _ _ _ λ sent t.
                    branch-After _ _ _ verdict.passed (λ _. complete_session-After _ owned e)
                      (λ _. reject_outcome-After name plan verdict _ owned e p))))))))
