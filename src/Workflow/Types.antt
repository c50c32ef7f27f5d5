-- ===== src/Workflow/Types.antt =====
-- The data of the workflow engine (src/types/workflow.rs). What the crates serde_json, uuid and
-- chrono bring, and the type f64, are the parameter `Host`.
use botto.Prelude.{String, ℕ, Bool, true, false, List, Option, ◌≡◌, some}
use botto.Prelude.Int.{ℤ}

-- Types and functions of other crates. `get` and `as_str` are those of `serde_json::Value`;
-- `error_object s` is `json!({"error": s})`, which `get` and `as_str` read back.
pub record Host : Type 1 where
  pub Value : Type 0
  pub Uuid : Type 0
  pub DateTime : Type 0
  pub Float : Type 0
  pub null : Value
  pub array : List Value → Value
  pub text : String → Value
  pub error_object : String → Value
  pub entry_object : String → String → Float → Value
  pub get : Value → String → Option Value
  pub as_str : Value → Option String
  pub zero : Float
  pub from_u64 : ℕ → Float
  pub get-error_object : (s : String) → get (error_object s) "error" ≡ some (text s)
  pub as_str-text : (s : String) → as_str (text s) ≡ some s

pub data WorkflowMode : Type 0 where
  simple autonomous : WorkflowMode

pub data BackoffStrategy : Type 0 where
  fixed : (delay_secs : ℕ) → BackoffStrategy
  exponential : (base_secs max_secs : ℕ) → BackoffStrategy

pub record RetryPolicy : Type 0 where
  pub max_retries : ℕ
  pub backoff : BackoffStrategy
  pub consult_mentor_on_failure : Bool

pub data AgentType : Type 0 where
  gitlab ai sandbox http script composite coding : AgentType

unfoldable pub agent_type_name : AgentType → String
agent_type_name gitlab = "gitlab"
agent_type_name ai = "ai"
agent_type_name sandbox = "sandbox"
agent_type_name http = "http"
agent_type_name script = "script"
agent_type_name composite = "composite"
agent_type_name coding = "coding"

pub data Trigger : Type 0 where
  cron : (schedule : String) → Trigger
  event : (event_type : String) (filter : Option String) → Trigger
  manual : Trigger

pub data RunStatus : Type 0 where
  pending running completed failed cancelled : RunStatus

unfoldable pub is_terminal_run : RunStatus → Bool
is_terminal_run completed = true
is_terminal_run failed = true
is_terminal_run cancelled = true
is_terminal_run _ = false

pub data AgentStatus : Type 0 where
  success failure partial : AgentStatus

pub data MentorCategory : Type 0 where
  execution domain workflow correction : MentorCategory

unfoldable pub category_name : MentorCategory → String
category_name execution = "execution"
category_name domain = "domain"
category_name workflow = "workflow"
category_name correction = "correction"

pub record MentorEntry : Type 0 where
  pub content : String
  pub scope : String
  pub category : MentorCategory

pub record DeliverableStatus : Type 0 where
  pub description : String
  pub met : Bool
  pub evidence : String

pub record VerificationResult : Type 0 where
  pub passed : Bool
  pub summary : String
  pub deliverables : List DeliverableStatus

pub data StepInput (H : Host) : Type 0 where
  static : (value : H.Value) → StepInput H
  step_output : (step_id field : String) → StepInput H
  mentor_query : (question : String) → StepInput H

pub record WorkflowStep (H : Host) : Type 0 where
  pub id : String
  pub action : String
  pub agent_type : AgentType
  pub inputs : List (String × StepInput H)
  pub success_criteria : String
  pub depends_on : List String
  pub retry_policy : RetryPolicy
  pub timeout_secs : ℕ

pub record WorkflowDefinition (H : Host) : Type 0 where
  pub id : H.Uuid
  pub name : String
  pub description : String
  pub project_id : ℤ
  pub steps : List (WorkflowStep H)
  pub triggers : List Trigger
  pub created_by : String
  pub created_at : H.DateTime
  pub updated_at : H.DateTime
  pub enabled : Bool
  pub mode : WorkflowMode

pub data TriggerSource (H : Host) : Type 0 where
  cron : (fired_at : H.DateTime) → TriggerSource H
  event : (event_type : String) (payload : H.Value) → TriggerSource H
  manual : (user : String) → TriggerSource H

pub data StepState (H : Host) : Type 0 where
  pending : StepState H
  running : (agent_id : H.Uuid) (started_at : H.DateTime) → StepState H
  completed : (output : H.Value) (duration_secs : H.Float) → StepState H
  failed : (error : String) (retries : ℕ) (duration_secs : H.Float) → StepState H
  skipped : (reason : String) → StepState H

unfoldable pub is_terminal : {H : Host} → StepState H → Bool
is_terminal (completed _ _) = true
is_terminal (failed _ _ _) = true
is_terminal (skipped _) = true
is_terminal _ = false

pub record AgentResult (H : Host) : Type 0 where
  pub status : AgentStatus
  pub output : H.Value
  pub duration_secs : H.Float
  pub learnings : List MentorEntry

pub record MentorInteraction (H : Host) : Type 0 where
  pub step_id : String
  pub question : String
  pub results_count : ℕ
  pub queried_at : H.DateTime

-- One answer of the Mentor knowledge store (src/services/mentor/client.rs).
pub record MentorQueryResult (H : Host) : Type 0 where
  pub id : String
  pub content : String
  pub scope : String
  pub scope_type : String
  pub category : String
  pub confidence : H.Float
  pub hit_count : ℤ
  pub rank : H.Float

pub record WorkflowRun (H : Host) : Type 0 where
  pub id : H.Uuid
  pub workflow_id : H.Uuid
  pub trigger : TriggerSource H
  pub status : RunStatus
  pub step_states : List (String × StepState H)
  pub started_at : H.DateTime
  pub completed_at : Option H.DateTime
  pub final_verification : Option VerificationResult
  pub mentor_queries : List (MentorInteraction H)
