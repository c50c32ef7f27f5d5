-- ===== src/Workflow/Session/Execution.antt =====
-- Executing a plan's steps (src/services/workflow/session.rs): which step is next, and what each
-- outcome of the generator does to the session.
use botto.Prelude.{
  String, ℕ, ◌+◌, Bool, false, not, List, [], ◌∷◌, Option, none, some, Result, ok, err, ◌<>◌,
  if◌then◌else◌, all, leb, ◌&&◌,
}
use botto.Prelude.Maps.{insert}
use botto.Prelude.{string_key}
use botto.Workflow.Types.{Host}
use botto.Workflow.Session.Types.{
  SessionPlan, PlanStep, EvaluatorVerdict, GeneratorOutcome, ConnectorResult, blocking, evaluating,
  adapting, failed, tool_call_started, tool_call_completed, tool_call_failed, evaluation_run,
  session_completed,
}
use botto.Workflow.Session.World.{
  Services, SessionManagerConfig, Act, ◌>>=◌, ◌>>◌, modify, call, send, lift_context, ok_or, branch,
  on_option, on_result, published, current, checkpoint_session, append_trace, touch,
  workflow_run_completed, workflow_step_started, workflow_step_completed, workflow_step_failed,
}
use botto.Workflow.Session.Escalation.{
  escalate, stamp, capability_escalation, evaluation_failure_escalation,
}
use botto.Workflow.Session.Planning.{has_output}
use text.Mathlib.Text.{◌==◌ as str_eq}

module _ {V : Type 0} where
  unfoldable pub is_runnable : List (String × V) → PlanStep → Bool
  is_runnable outputs step =
      not (has_output outputs step.id) && all (has_output outputs) step.depends_on

  unfoldable pub find_step : List PlanStep → List (String × V) → Option PlanStep
  find_step [] outputs = none
  find_step (s ∷ steps) outputs = if is_runnable outputs s then some s else find_step steps outputs

  unfoldable pub find_next_step : SessionPlan → List (String × V) → Option PlanStep
  unfolding find_step
  find_next_step plan outputs = find_step plan.steps outputs

  unfoldable pub all_steps_complete : SessionPlan → List (String × V) → Bool
  all_steps_complete plan outputs = all (λ s. has_output outputs s.id) plan.steps

unfoldable pub is_current : String → Option String → Bool
is_current id none = false
is_current id (some current_id) = str_eq current_id id

module _ {H : Host} (S : Services H) (config : SessionManagerConfig H) where
  unfoldable pub fail_session : String → Act H S.Error (Unit {0})
  fail_session reason = do
    append_trace S session_completed none (some reason)
    modify λ s. record s { status = failed }
    stamp S
    touch S
    checkpoint_session S
    send (published workflow_run_completed)

  unfoldable pub escalate_failures :
      (workflow_name step_id : String) → ℕ → String → Act H S.Error (Unit {0})
  escalate_failures workflow_name step_id attempts feedback = do
    session ← current S
    now ← call S.epoch_secs
    escalate S (evaluation_failure_escalation session workflow_name step_id attempts feedback now)

  unfoldable pub escalate_capability :
      (workflow_name step_id capability description : String) → Act H S.Error (Unit {0})
  escalate_capability workflow_name step_id capability description = do
    session ← current S
    now ← call S.epoch_secs
    escalate S (capability_escalation session workflow_name step_id capability description now)

  -- One more attempt is over: a human is asked when it was the last, and `retry` goes on otherwise.
  unfoldable pub count_attempt :
      (workflow_name step_id feedback : String)
      → Act H S.Error (Unit {0})
      → Act H S.Error (Unit {0})
  count_attempt workflow_name step_id feedback retry = do
    modify λ s. record s { step_retry_count = s.step_retry_count + 1 }
    session ← current S
    branch (leb config.max_step_retries session.step_retry_count)
        (escalate_failures workflow_name step_id session.step_retry_count feedback) retry
    send (published workflow_step_failed)

  -- The output is accepted.
  unfoldable pub record_output : PlanStep → H.Value → Act H S.Error (Unit {0})
  record_output step output = do
    modify λ s. record s {
      step_outputs = insert step.id output s.step_outputs;
      evaluator_feedback = none;
      step_retry_count = 0;
    }
    touch S
    checkpoint_session S
    send (published workflow_step_completed)

  -- The output has a verdict.
  unfoldable pub judge_output :
      String → PlanStep → H.Value → EvaluatorVerdict H → Act H S.Error (Unit {0})
  judge_output workflow_name step output verdict = do
    append_trace S evaluation_run (some step.id) none
    branch verdict.passed (record_output step output) (
        count_attempt workflow_name step.id verdict.feedback (do
          modify λ s. record s { evaluator_feedback = some verdict }
          touch S
          checkpoint_session S))

  unfoldable pub handle_success : String → PlanStep → H.Value → Act H S.Error (Unit {0})
  handle_success workflow_name step output = do
    append_trace S tool_call_completed (some step.id) none
    branch (str_eq step.success_criteria "") (record_output step output) (do
      answer ← call λ t. S.evaluate_step t config.ai_model step output (some config.eval_threshold)
      on_result answer (λ _. record_output step output) (judge_output workflow_name step output))

  unfoldable pub offer_connector : String → S.ConnectorSpec → Act H S.Error (Unit {0})
  offer_connector capability spec = do
    modify λ s. record s {
      step_outputs = insert ("_connector_" <> capability) (S.connector_info spec) s.step_outputs;
    }
    touch S
    checkpoint_session S

  unfoldable pub handle_connector :
      (workflow_name step_id capability description : String)
      → Result S.Error (ConnectorResult S.ConnectorSpec)
      → Act H S.Error (Unit {0})
  handle_connector workflow_name step_id capability description (ok (ConnectorResult.found spec)) =
      offer_connector capability spec
  handle_connector workflow_name step_id capability description (ok (ConnectorResult.built spec)) =
      offer_connector capability spec
  handle_connector workflow_name step_id capability description
        (ok (ConnectorResult.needs_human cap reason)) =
      escalate_capability workflow_name step_id cap
        (description <> "\n\nConnector build failed: " <> reason)
  handle_connector workflow_name step_id capability description (err _) =
      escalate_capability workflow_name step_id capability description

  unfoldable pub handle_outcome : String → PlanStep → GeneratorOutcome H → Act H S.Error (Unit {0})
  handle_outcome workflow_name step (GeneratorOutcome.success output _) =
      handle_success workflow_name step output
  handle_outcome workflow_name step (GeneratorOutcome.failure error) = do
    append_trace S tool_call_failed (some step.id) (some error)
    count_attempt workflow_name step.id error (do touch S; checkpoint_session S)
  handle_outcome workflow_name step (GeneratorOutcome.needs_capability capability description) = do
    answer ← call λ t. S.find_or_build t config.ai_model capability description
    handle_connector workflow_name step.id capability description answer
  handle_outcome workflow_name step (GeneratorOutcome.needs_human reason what_i_need options) = do
    session ← current S
    now ← call S.epoch_secs
    escalate S (record {
      session_id = session.id;
      workflow_name = workflow_name;
      step_id = some step.id;
      severity = blocking;
      reason = reason;
      what_i_need = what_i_need;
      options = options;
      created_at = now;
    })
  handle_outcome workflow_name step
        (GeneratorOutcome.plan_modification output add_steps remove_step_ids reason) =
      do
        modify λ s. record s {
          step_outputs = insert step.id output s.step_outputs;
          pending_modification = some (record {
            add_steps = add_steps;
            remove_step_ids = remove_step_ids;
            reason = reason;
          });
          status = adapting;
        }
        touch S
        checkpoint_session S

  -- The step becomes the current one, with its count of attempts.
  unfoldable pub begin_step : PlanStep → Act H S.Error (Unit {0})
  unfolding is_current
  begin_step step = do
    modify λ s. record s {
      step_retry_count = if is_current step.id s.current_step_id then s.step_retry_count else 0;
      current_step_id = some step.id;
    }
    touch S
    checkpoint_session S
    send (published workflow_step_started)
    append_trace S tool_call_started (some step.id) none

  unfoldable pub run_generator : String → PlanStep → Act H S.Error (Unit {0})
  run_generator workflow_name step = do
    begin_step step
    session ← current S
    answer ← call λ t.
        S.execute_step t step session.step_outputs config.ai_model session.evaluator_feedback
          session.trigger_data
    outcome ← lift_context S "generator failed" answer
    handle_outcome workflow_name step outcome

  -- No step is ready: all are complete, or the plan is stuck.
  unfoldable pub end_execution : SessionPlan → Act H S.Error (Unit {0})
  end_execution plan = do
    session ← current S
    branch (all_steps_complete plan session.step_outputs)
        (do
          modify λ s. record s { status = evaluating; current_step_id = none }
          touch S
          checkpoint_session S)
        (fail_session "deadlocked — steps remain but none are ready")

  unfoldable pub run_next_step : String → Act H S.Error (Unit {0})
  run_next_step workflow_name = do
    session ← current S
    plan ← ok_or session.plan (S.error "session in Executing state but has no plan")
    on_option (find_next_step plan session.step_outputs) (end_execution plan)
        (run_generator workflow_name)
