-- ===== src/Workflow/Session/Drive.antt =====
-- The main loop of a session (src/services/workflow/session.rs): the evaluation of the whole, the
-- guards of `drive`, and how sessions are created and resumed.
use botto.Prelude.{
  String, ℕ, zero, suc, ◌+◌, ◌*◌, Bool, true, false, List, [], ◌∷◌, none, some, Result, ok, err,
  ◌<>◌, leb, ltb, string_key,
}
use botto.Prelude.Maps.{lookup}
use botto.Prelude.Int.{ℤ}
use botto.Workflow.Types.{Host}
use botto.Workflow.Session.Types.{
  SessionStatus, SessionState, PlanStep, EvaluatorVerdict, EscalationMessage, EscalationOption,
  blocking, created, planning, executing, evaluating, adapting, waiting_for_human, clarifying,
  completed, evaluation_run, session_completed,
}
use botto.Workflow.Session.World.{
  Services, SessionManagerConfig, World, Act, ◌>>=◌, ◌>>◌, pure, modify, call, send, lift_context,
  ok_or, branch, on_option, published, current, checkpoint_session, append_trace, touch,
  session_escalation, workflow_run_completed,
}
use botto.Workflow.Session.Escalation.{escalate, stamp}
use botto.Workflow.Session.Planning.{run_planning, run_replanning, transition_to_planning}
use botto.Workflow.Session.Execution.{run_next_step, fail_session, escalate_failures}

unfoldable pub max_iterations : ℕ
max_iterations = 100

-- One hour, in nanoseconds.
unfoldable pub max_duration : ℕ
max_duration = 3600 * 1000000000

-- `filter_map` of the steps that have an output.
step_summaries : {V : Type 0} → List PlanStep → List (String × V) → List (String × V)
step_summaries [] outputs = []
step_summaries (s ∷ steps) outputs =
    let rest = step_summaries steps outputs in
    elim (lookup s.id outputs) [ none ↦ rest | some o ↦ (s.id, o) ∷ rest ]

option_of : String → String → String → EscalationOption
option_of id label description = record { id = id; label = label; description = some description }

unfoldable pub iterations_message : {H : Host} → String → SessionState H → ℤ → EscalationMessage H
unfolding option_of
iterations_message workflow_name session now = record {
  session_id = session.id;
  workflow_name = workflow_name;
  step_id = session.current_step_id;
  severity = blocking;
  reason = "Session exceeded maximum iterations (100)";
  what_i_need =
      "The session has been running too long. Please review and decide whether to continue, "
      <> "replan, or cancel.";
  options =
      option_of "continue" "Continue" "Resume the session for another round of iterations."
      ∷ option_of "replan" "Replan" "Go back to planning with a simpler approach."
      ∷ option_of "cancel" "Cancel" "Stop the workflow."
      ∷ [];
  created_at = now;
}

unfoldable pub duration_message : {H : Host} → String → SessionState H → ℤ → EscalationMessage H
unfolding option_of
duration_message workflow_name session now = record {
  session_id = session.id;
  workflow_name = workflow_name;
  step_id = session.current_step_id;
  severity = blocking;
  reason = "Session exceeded maximum duration (1 hour)";
  what_i_need =
      "The session has been running too long. Please review and decide whether to continue or "
      <> "cancel.";
  options =
      option_of "continue" "Continue" "Resume the session."
      ∷ option_of "cancel" "Cancel" "Stop the workflow."
      ∷ [];
  created_at = now;
}

module _ {H : Host} (S : Services H) (config : SessionManagerConfig H) where
  unfoldable pub complete_session : Act H S.Error (Unit {0})
  complete_session = do
    modify λ s. record s { status = completed }
    stamp S
    touch S
    checkpoint_session S
    append_trace S session_completed none none
    send (published workflow_run_completed)

  -- What `run_evaluation` does with a verdict that did not pass.
  unfoldable pub reject_outcome : String → EvaluatorVerdict H → Act H S.Error (Unit {0})
  reject_outcome workflow_name verdict = do
    modify λ s. record s { evaluator_feedback = some verdict; retry_count = s.retry_count + 1 }
    session ← current S
    branch (leb config.max_session_retries session.retry_count)
        (escalate_failures S config workflow_name "session" session.retry_count verdict.feedback)
        (do modify λ s. record s { status = adapting }; touch S; checkpoint_session S)

  unfoldable pub run_evaluation : String → Act H S.Error (Unit {0})
  unfolding step_summaries
  run_evaluation workflow_name = do
    session ← current S
    plan ← ok_or session.plan (S.error "session in Evaluating state but has no plan")
    let summaries = step_summaries plan.steps session.step_outputs
    answer ←
        call
          λ t. S.evaluate_session t config.ai_model plan.goal summaries (some config.eval_threshold)
    verdict ← lift_context S "session evaluation failed" answer
    append_trace S evaluation_run none none
    branch verdict.passed complete_session (reject_outcome workflow_name verdict)

  -- A method whose error fails the session.
  unfoldable pub or_fail_outcome :
      (S.Error → String) → Result S.Error (Unit {0}) × World H → Result S.Error (Unit {0}) × World H
  or_fail_outcome reason (ok _, w) = (ok tt, w)
  or_fail_outcome reason (err e, w) = fail_session S config (reason e) w

  unfoldable pub or_fail : Act H S.Error (Unit {0}) → (S.Error → String) → Act H S.Error (Unit {0})
  unfolding or_fail_outcome
  or_fail act reason w = or_fail_outcome reason (act w)

  -- The escalation is told again, if there is one.
  unfoldable pub re_emit : Act H S.Error (Unit {0})
  re_emit = do
    session ← current S
    on_option session.escalation (pure tt) λ _. send (published session_escalation)

  -- The `match` of the loop: whether it goes on.
  unfoldable pub round : String → SessionStatus → Act H S.Error Bool
  round workflow_name created = do transition_to_planning S config; pure true
  round workflow_name planning = do
    or_fail (run_planning S config) (λ e. "planning failed: " <> S.show_chain e)
    pure true
  round workflow_name executing = do
    or_fail (run_next_step S config workflow_name) (λ e. "execution failed: " <> S.show_error e)
    pure true
  round workflow_name evaluating = do
    or_fail (run_evaluation workflow_name) (λ e. "evaluation failed: " <> S.show_error e)
    pure true
  round workflow_name adapting = do
    or_fail (run_replanning S config) (λ e. "replanning failed: " <> S.show_error e)
    pure true
  round workflow_name clarifying = do re_emit; pure false
  round workflow_name waiting_for_human = do re_emit; pure false
  round workflow_name _ = pure false

  unfoldable pub escalate_limit :
      (SessionState H → ℤ → EscalationMessage H) → Act H S.Error (Unit {0})
  escalate_limit message = do
    session ← current S
    now ← call S.epoch_secs
    escalate S (message session now)

  -- The loop, with the number of iterations that are left before the guard escalates.
  unfoldable pub drive_loop : String → (iterations_left : ℕ) → Act H S.Error (Unit {0})
  unfolding max_duration
  drive_loop workflow_name zero = escalate_limit (iterations_message workflow_name)
  drive_loop workflow_name (suc iterations_left) = do
    elapsed ← call S.elapsed
    branch (ltb max_duration elapsed) (escalate_limit (duration_message workflow_name)) (do
      session ← current S
      again ← round workflow_name session.status
      branch again (drive_loop workflow_name iterations_left) (pure tt))

  unfoldable pub drive : String → Act H S.Error (Unit {0})
  unfolding max_iterations
  drive workflow_name = drive_loop workflow_name max_iterations
