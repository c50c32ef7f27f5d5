-- ===== src/Workflow/Session/Escalation.antt =====
-- Escalations to a human and the answers to them (src/services/workflow/escalation.rs).
use botto.Prelude.{
  String, ℕ, Bool, true, false, [], ◌∷◌, Option, none, some, ◌<>◌, decimal, if◌then◌else◌,
}
use botto.Prelude.Int.{ℤ}
use botto.Workflow.Types.{Host}
use botto.Workflow.Session.Types.{
  SessionStatus, SessionState, EscalationMessage, EscalationSeverity, blocking, warning, info,
  planning, executing, adapting, waiting_for_human, clarifying, cancelled, agent_to_human,
  human_to_agent, escalation_sent,
}
use botto.Workflow.Session.Stored.{status_name}
use botto.Workflow.Session.World.{
  Services, Act, ◌>>=◌, ◌>>◌, pure, fail, modify, call, send, branch, published, current,
  checkpoint_session, append_trace, add_session_message, touch, session_escalation, session_resumed,
}
use text.Mathlib.Text.{◌==◌ as str_eq, starts_with}

-- `{:?}` of a severity.
severity_debug : EscalationSeverity → String
severity_debug blocking = "Blocking"
severity_debug warning = "Warning"
severity_debug info = "Info"

unfoldable pub is_clarifying : SessionStatus → Bool
is_clarifying clarifying = true
is_clarifying _ = false

-- A session that waits for an answer.
unfoldable pub is_paused : SessionStatus → Bool
is_paused waiting_for_human = true
is_paused clarifying = true
is_paused _ = false

-- The status that an answer leads to, from `Clarifying` or from `WaitingForHuman`.
unfoldable pub next_status :
    (was_clarifying : Bool) → (chosen_option : Option String) → SessionStatus
next_status true none = planning
next_status true (some opt) = if str_eq opt "cancel" then cancelled else planning
next_status false none = executing
next_status false (some opt) =
    if str_eq opt "cancel"
    then cancelled
    else if starts_with opt "replan"
    then adapting
    else executing

unfoldable pub is_cancelled : SessionStatus → Bool
is_cancelled cancelled = true
is_cancelled _ = false

unfoldable pub capability_escalation :
    {H : Host} → SessionState H → String → String → String → String → ℤ → EscalationMessage H
capability_escalation session workflow_name step_id capability description now = record {
  session_id = session.id;
  workflow_name = workflow_name;
  step_id = some step_id;
  severity = blocking;
  reason =
      "Step '" <> step_id <> "' requires the '" <> capability
      <> "' capability which is not available.";
  what_i_need = description;
  options =
      record {
        id = "provide_credentials";
        label = "Provide credentials";
        description =
            some ("Supply the missing '" <> capability <> "' capability so the step can proceed.");
      }
      ∷ record {
        id = "skip";
        label = "Skip this step";
        description = some "Mark the step as skipped and continue with the rest of the workflow.";
      }
      ∷ record {
        id = "cancel";
        label = "Cancel workflow";
        description = some "Stop the entire workflow.";
      }
      ∷ [];
  created_at = now;
}

unfoldable pub evaluation_failure_escalation :
    {H : Host} → SessionState H → String → String → ℕ → String → ℤ → EscalationMessage H
evaluation_failure_escalation session workflow_name step_id attempts last_feedback now = record {
  session_id = session.id;
  workflow_name = workflow_name;
  step_id = some step_id;
  severity = blocking;
  reason =
      "Step '"
      <> step_id
      <> "' has failed evaluation "
      <> decimal attempts
      <> " time(s). Last feedback: "
      <> last_feedback;
  what_i_need =
      "Guidance on how to proceed — retry with a different approach, skip, replan, or cancel.";
  options =
      record {
        id = "retry_different";
        label = "Retry with a different approach";
        description = some "I'll try an alternative strategy for this step.";
      }
      ∷ record {
        id = "skip";
        label = "Skip this step";
        description = some "Accept the current state and move on.";
      }
      ∷ record {
        id = "replan";
        label = "Replan the workflow";
        description = some "Go back to planning and find a different path to the goal.";
      }
      ∷ record {
        id = "cancel";
        label = "Cancel workflow";
        description = some "Stop the entire workflow.";
      }
      ∷ [];
  created_at = now;
}

-- The session that `escalate` leaves.
abbrev pub escalated : {H : Host} → EscalationMessage H → ℤ → SessionState H → SessionState H
escalated message now s = record s {
  status = waiting_for_human;
  escalation = some message;
  updated_at = now;
}

module _ {H : Host} (S : Services H) where
  -- `escalate`: the status and the message first, then the checkpoint, and then what tells of it.
  unfoldable pub escalate : EscalationMessage H → Act H S.Error (Unit {0})
  unfolding severity_debug
  escalate message = do
    modify λ s. record s { status = waiting_for_human; escalation = some message }
    touch S
    checkpoint_session S
    append_trace S escalation_sent message.step_id none
    add_session_message S agent_to_human (
        "[Escalation — "
        <> severity_debug message.severity
        <> "] "
        <> message.reason
        <> "\n\nWhat I need: "
        <> message.what_i_need)
    send (published session_escalation)

  -- `session.completed_at = Some(crud::epoch_secs())`.
  unfoldable pub stamp : Act H S.Error (Unit {0})
  stamp = do now ← call S.epoch_secs; modify λ s. record s { completed_at = some now }

  -- `handle_response`, whose result is the new status.
  unfoldable pub handle_response :
      (response_content : String) → (chosen_option : Option String) → Act H S.Error SessionStatus
  unfolding is_cancelled
  handle_response response_content chosen_option = do
    session ← current S
    branch (is_paused session.status) (pure tt) (
        fail (
          S.error (
            "session "
            <> S.json.show_id session.id
            <> " is in status '"
            <> status_name session.status
            <> "', not 'waiting_for_human' or 'clarifying'")))
    add_session_message S human_to_agent response_content
    let next = next_status (is_clarifying session.status) chosen_option
    modify λ s. record s { status = next; escalation = none }
    touch S
    branch (is_cancelled next) stamp (pure tt)
    checkpoint_session S
    send (published session_resumed)
    pure next
