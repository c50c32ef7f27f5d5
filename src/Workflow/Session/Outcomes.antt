-- ===== src/Workflow/Session/Outcomes.antt =====
-- The outcomes of a step in src/services/workflow/session.rs, `run_next_step`, against the session's
-- step relation.
use botto.Prelude.{String, ℕ, ◌+◌, ◌<◌, some, Result, ok, err, refl, arith, leb}
use botto.Prelude.Int.{ℤ}
use botto.Workflow.Types.{Host}
use botto.Workflow.Session.Types.{
  SessionState, PlanStep, EvaluatorVerdict, EscalationMessage, GeneratorOutcome, ConnectorResult,
  failed,
}
use botto.Workflow.Session.World.{Services, SessionManagerConfig, World, Act, Effect, then_do, send}
use botto.Workflow.Session.Escalation.{stamp, escalated}
use botto.Workflow.Session.Execution.{
  fail_session, escalate_failures, escalate_capability, count_attempt, record_output, judge_output,
  handle_success, offer_connector, handle_connector, handle_outcome,
}
use botto.Workflow.Session.After.{
  After, returns, After-bind, After-mono, branch-After, on_result-After, Owned, Holds,
  checkpoint_session-After, touch-After, append_trace-After, escalate-After,
}
use botto.Workflow.Session.Relation.{StepResult, ended}

module _ {H : Host} (S : Services H) (config : SessionManagerConfig H) where
  pub fail_session-After :
      (reason : String) (w : World H) (P : SessionState H → Type 0)
      → Owned S w
      → ((now now' : ℤ) → P (ended failed now now' w.session))
      → After (Holds S P) (Owned S) (fail_session S config reason w)
  unfolding fail_session stamp
  fail_session-After reason w P owned p = After-bind (
      append_trace-After S _ _ _ _ λ sent t. After-bind (
        returns (
          After-bind (
            After-bind (
              returns (
                returns (
                  After-bind (
                    touch-After S _ λ now t'.
                      After-bind
                        (checkpoint_session-After S _ owned λ t''. returns (refl, p _ _))))))))))

  pub escalate_failures-After :
      (name id : String) (attempts : ℕ) (feedback : String) (w : World H)
      (P : SessionState H → Type 0)
      → Owned S w
      → ((m : EscalationMessage H) (now : ℤ) → P (escalated m now w.session))
      → After (Holds S P) (Owned S) (escalate_failures S config name id attempts feedback w)
  unfolding escalate_failures
  escalate_failures-After name id attempts feedback w P owned p =
      After-bind
        (returns (After-bind (returns (escalate-After S _ _ owned λ now sent t. (refl, p _ now)))))

  escalate_capability-After :
      (name id capability description : String) (w : World H) (P : SessionState H → Type 0)
      → Owned S w
      → ((m : EscalationMessage H) (now : ℤ) → P (escalated m now w.session))
      → After (Holds S P) (Owned S) (escalate_capability S config name id capability description w)
  unfolding escalate_capability
  escalate_capability-After name id capability description w P owned p =
      After-bind
        (returns (After-bind (returns (escalate-After S _ _ owned λ now sent t. (refl, p _ now)))))

  -- What the run of a step refines.
  abbrev Stepped : PlanStep → SessionState H → Unit {0} → World H → Type 0
  Stepped step s = Holds S (StepResult config step s)

  record_output-After :
      (step : PlanStep) (output : H.Value) (w : World H)
      → Owned S w
      → After (Stepped step w.session) (Owned S) (record_output S config step output w)
  unfolding record_output
  record_output-After step output w owned = After-bind (
      returns (
        After-bind (
          touch-After S _ λ now t. After-bind (
            checkpoint_session-After S _ owned
              λ t'. returns (refl, StepResult.accepted output now)))))

  offer_connector-After :
      (step : PlanStep) (capability : String) (spec : S.ConnectorSpec) (w : World H)
      → Owned S w
      → After (Stepped step w.session) (Owned S) (offer_connector S config capability spec w)
  unfolding offer_connector
  offer_connector-After step capability spec w owned = After-bind (
      returns (
        After-bind (
          touch-After S _ λ now t.
            checkpoint_session-After S _ owned
              λ t'. (refl, StepResult.connected capability (S.connector_info spec) now))))

  After-send :
      (P : SessionState H → Type 0) {r : Result S.Error (Unit {0}) × World H} (e : Effect)
      → After (Holds S P) (Owned S) r
      → After (Holds S P) (Owned S) (then_do r (λ _. send e))
  After-send P e h = After-bind (After-mono (λ _ _ q. returns q) h)

  -- One more attempt of a step.
  count_attempt-After :
      (name : String) (step : PlanStep) (feedback : String) (retry : Act H S.Error (Unit {0}))
      (w : World H)
      → Owned S w
      → (w.session.step_retry_count + 1 < config.max_step_retries
          → After (Stepped step w.session) (Owned S) (
              retry (record w {
                session = record (w.session) { step_retry_count = w.session.step_retry_count + 1 };
              })))
      → After
          (Stepped step w.session)
          (Owned S)
          (count_attempt S config name step.id feedback retry w)
  unfolding count_attempt
  count_attempt-After name step feedback retry w owned go = After-bind (
      returns (
        After-bind (
          returns (
            After-send _ _ (
              branch-After _ _ _ (leb config.max_step_retries (w.session.step_retry_count + 1))
                (λ last.
                  escalate_failures-After name step.id _ _ _ _ owned
                    λ m now. StepResult.given_up (ground (arith, last)) m now)
                (λ more. go (ground (arith, more))))))))

  judge_output-After :
      (name : String) (step : PlanStep) (output : H.Value) (verdict : EvaluatorVerdict H)
      (w : World H)
      → Owned S w
      → After (Stepped step w.session) (Owned S) (judge_output S config name step output verdict w)
  unfolding judge_output
  judge_output-After name step output verdict w owned = After-bind (
      append_trace-After S _ _ _ _ λ sent t.
        branch-After _ _ _ verdict.passed (λ passed. record_output-After step output _ owned)
          (λ not_passed. count_attempt-After name step _ _ _ owned λ more. After-bind (
            returns (
              After-bind (
                touch-After S _ λ now t'.
                  checkpoint_session-After S _ owned
                    λ t''. (refl, StepResult.retried more (some verdict) now))))))

  handle_success-After :
      (name : String) (step : PlanStep) (output : H.Value) (w : World H)
      → Owned S w
      → After (Stepped step w.session) (Owned S) (handle_success S config name step output w)
  unfolding handle_success
  handle_success-After name step output w owned = After-bind (
      append_trace-After S _ _ _ _ λ sent t.
        branch-After _ _ _ _ (λ unjudged. record_output-After step output _ owned)
          (λ judged. After-bind (
            returns (
              on_result-After _ _ _ _ (λ _. record_output-After step output _ owned)
                (λ verdict. judge_output-After name step output verdict _ owned)))))

  handle_connector-After :
      (name : String) (step : PlanStep) (capability description : String)
      (answer : Result S.Error (ConnectorResult S.ConnectorSpec)) (w : World H)
      → Owned S w
      → After
          (Stepped step w.session)
          (Owned S)
          (handle_connector S config name step.id capability description answer w)
  unfolding handle_connector
  handle_connector-After name step c d (ok (ConnectorResult.found spec)) w owned =
      offer_connector-After step c spec w owned
  handle_connector-After name step c d (ok (ConnectorResult.built spec)) w owned =
      offer_connector-After step c spec w owned
  handle_connector-After name step c d (ok (ConnectorResult.needs_human cap reason)) w owned =
      escalate_capability-After _ _ _ _ w _ owned StepResult.handed_over
  handle_connector-After name step c d (err _) w owned =
      escalate_capability-After _ _ _ _ w _ owned StepResult.handed_over

  pub handle_outcome-After :
      (name : String) (step : PlanStep) (outcome : GeneratorOutcome H) (w : World H)
      → Owned S w
      → After (Stepped step w.session) (Owned S) (handle_outcome S config name step outcome w)
  unfolding handle_outcome
  handle_outcome-After name step (GeneratorOutcome.success output files) w owned =
      handle_success-After name step output w owned
  handle_outcome-After name step (GeneratorOutcome.failure error) w owned = After-bind (
      append_trace-After S _ _ _ _ λ sent t. count_attempt-After name step _ _ _ owned λ more.
        After-bind (
          touch-After S _ λ now t'.
            checkpoint_session-After S _ owned
              λ t''. (refl, StepResult.retried more w.session.evaluator_feedback now)))
  handle_outcome-After name step (GeneratorOutcome.needs_capability c d) w owned =
      After-bind (returns (handle_connector-After name step c d _ _ owned))
  handle_outcome-After name step (GeneratorOutcome.needs_human reason what options) w owned =
      After-bind (
        returns (
          After-bind (
            returns
              (escalate-After S _ _ owned λ now sent t. (refl, StepResult.handed_over _ now)))))
  handle_outcome-After name step (GeneratorOutcome.plan_modification o add_steps ids reason) w
        owned =
      After-bind (
        returns (
          After-bind (
            touch-After S _ λ now t.
              checkpoint_session-After S _ owned λ t'. (refl, StepResult.modification o _ now))))
