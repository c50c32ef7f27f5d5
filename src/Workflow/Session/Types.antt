-- ===== src/Workflow/Session/Types.antt =====
-- The data of an autonomous session (src/types/workflow.rs, from "Session-based orchestrator
-- types"), with the results of the planner (src/services/workflow/planner.rs) and of the connector
-- builder (src/services/workflow/connector.rs). A `ConnectorSpec` is a type of `Services`.
use botto.Prelude.{String, ℕ, Bool, true, false, List, Option}
use botto.Prelude.Int.{ℤ}
use botto.Workflow.Types.{Host, AgentType}

pub data SessionStatus : Type 0 where
  created planning executing evaluating adapting waiting_for_human : SessionStatus
  clarifying completed failed cancelled : SessionStatus

unfoldable pub is_terminal_session : SessionStatus → Bool
is_terminal_session completed = true
is_terminal_session failed = true
is_terminal_session cancelled = true
is_terminal_session _ = false

pub record PlanStep : Type 0 where
  pub id : String
  pub description : String
  pub agent_type : AgentType
  pub success_criteria : String
  pub depends_on : List String
  pub capabilities_needed : List String
  pub tool : Option String

pub record SessionPlan : Type 0 where
  pub goal : String
  pub steps : List PlanStep
  pub capabilities_needed : List String

pub record PendingPlanModification : Type 0 where
  pub add_steps : List PlanStep
  pub remove_step_ids : List String
  pub reason : String

pub data EscalationSeverity : Type 0 where
  blocking warning info : EscalationSeverity

pub record EscalationOption : Type 0 where
  pub id : String
  pub label : String
  pub description : Option String

pub record EscalationMessage (H : Host) : Type 0 where
  pub session_id : H.Uuid
  pub workflow_name : String
  pub step_id : Option String
  pub severity : EscalationSeverity
  pub reason : String
  pub what_i_need : String
  pub options : List EscalationOption
  pub created_at : ℤ

pub record EvaluatorVerdict (H : Host) : Type 0 where
  pub passed : Bool
  pub score : H.Float
  pub threshold : H.Float
  pub feedback : String
  pub suggestion : Option String

pub data GeneratorOutcome (H : Host) : Type 0 where
  success : (output : H.Value) (files_changed : List String) → GeneratorOutcome H
  failure : (error : String) → GeneratorOutcome H
  needs_capability : (capability description : String) → GeneratorOutcome H
  needs_human : (reason what_i_need : String) (options : List EscalationOption) → GeneratorOutcome H
  plan_modification :
      (output : H.Value) (add_steps : List PlanStep) (remove_step_ids : List String)
      (reason : String)
      → GeneratorOutcome H

pub data PlanResult : Type 0 where
  plan : SessionPlan → PlanResult
  needs_clarification : (questions : List String) (reason : String) → PlanResult

pub data ConnectorResult (Spec : Type 0) : Type 0 where
  found built : Spec → ConnectorResult Spec
  needs_human : (capability reason : String) → ConnectorResult Spec

pub record SessionState (H : Host) : Type 0 where
  pub id : H.Uuid
  pub workflow_id : H.Uuid
  pub status : SessionStatus
  pub trigger_type : String
  pub trigger_data : Option H.Value
  pub plan : Option SessionPlan
  pub step_outputs : List (String × H.Value)
  pub current_step_id : Option String
  pub retry_count : ℕ
  pub max_retries : ℕ
  pub step_retry_count : ℕ
  pub evaluator_feedback : Option (EvaluatorVerdict H)
  pub escalation : Option (EscalationMessage H)
  pub pending_modification : Option PendingPlanModification
  pub started_at : ℤ
  pub completed_at : Option ℤ
  pub updated_at : ℤ

pub data MessageDirection : Type 0 where
  agent_to_human human_to_agent : MessageDirection

pub record SessionMessage (H : Host) : Type 0 where
  pub id : ℤ
  pub session_id : H.Uuid
  pub direction : MessageDirection
  pub content : String
  pub metadata : Option H.Value
  pub created_at : ℤ

pub data TraceEventType : Type 0 where
  plan_created clarification_requested clarification_received tool_call_started : TraceEventType
  tool_call_completed tool_call_failed recovery_attempted evaluation_run : TraceEventType
  escalation_sent human_response_received session_completed : TraceEventType
