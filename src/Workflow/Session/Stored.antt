-- ===== src/Workflow/Session/Stored.antt =====
-- How a session is stored (src/services/workflow/crud.rs): the row of `workflow_sessions` that
-- `create_session` inserts, the columns that `checkpoint_session` updates, and `parse_session_row`,
-- with which `load_session` and `load_resumable_sessions` read it back.
use botto.Prelude.{
  String, ℕ, List, [], ◌∷◌, Option, none, some, ◌≡◌, Result, ok, err, ◌-◌, ◌+◌, ◌%◌, ◌^◌,
  if◌then◌else◌, contains, string_key, refl,
}
use botto.Prelude.Int.{ℤ, pos, negsuc}
use botto.Workflow.Types.{Host}
use botto.Workflow.Session.Types.{
  SessionStatus, SessionState, SessionPlan, EvaluatorVerdict, EscalationMessage, created, planning,
  executing, evaluating, adapting, waiting_for_human, clarifying, completed, failed, cancelled,
}
use mathlib.Core.Option
use text.Mathlib.Text.{◌==◌ as str_eq}

unfoldable pub status_name : SessionStatus → String
status_name created = "created"
status_name planning = "planning"
status_name executing = "executing"
status_name evaluating = "evaluating"
status_name adapting = "adapting"
status_name waiting_for_human = "waiting_for_human"
status_name clarifying = "clarifying"
status_name completed = "completed"
status_name failed = "failed"
status_name cancelled = "cancelled"

unfoldable pub parse_session_status : String → SessionStatus
parse_session_status s =
    if str_eq s "created"
    then created
    else if str_eq s "planning"
    then planning
    else if str_eq s "executing"
    then executing
    else if str_eq s "evaluating"
    then evaluating
    else if str_eq s "adapting"
    then adapting
    else if str_eq s "waiting_for_human"
    then waiting_for_human
    else if str_eq s "clarifying"
    then clarifying
    else if str_eq s "completed"
    then completed
    else if str_eq s "failed"
    then failed
    else if str_eq s "cancelled"
    then cancelled
    else failed

-- The texts that serde_json writes and reads, and those of uuid. The text of a `Uuid` is read back.
pub record Json (H : Host) : Type 0 where
  pub show_id : H.Uuid → String
  pub read_id : String → Option H.Uuid
  pub write_data : H.Value → String
  pub read_data : String → Option H.Value
  pub write_plan : SessionPlan → String
  pub read_plan : String → Option SessionPlan
  pub write_outputs : List (String × H.Value) → String
  pub read_outputs : String → Option (List (String × H.Value))
  pub write_verdict : EvaluatorVerdict H → String
  pub read_verdict : String → Option (EvaluatorVerdict H)
  pub write_escalation : EscalationMessage H → String
  pub read_escalation : String → Option (EscalationMessage H)
  pub read_id-show_id : (u : H.Uuid) → read_id (show_id u) ≡ some u

-- A row of the table `workflow_sessions`.
pub record Row : Type 0 where
  pub id : String
  pub workflow_id : String
  pub status : String
  pub trigger_type : String
  pub trigger_data : Option String
  pub plan : Option String
  pub step_outputs : String
  pub current_step_id : Option String
  pub retry_count : ℤ
  pub max_retries : ℤ
  pub evaluator_feedback : Option String
  pub escalation : Option String
  pub started_at : ℤ
  pub completed_at : Option ℤ
  pub updated_at : ℤ

-- `x as u32` for an `i64`.
unfoldable pub as_u32 : ℤ → ℕ
as_u32 (pos n) = n % 2 ^ 32
as_u32 (negsuc n) = 2 ^ 32 - (n % 2 ^ 32 + 1)

module _ {H : Host} (J : Json H) where
  -- The row that `create_session` inserts.
  unfoldable pub inserted_row : SessionState H → Row
  inserted_row s = record {
    id = J.show_id s.id;
    workflow_id = J.show_id s.workflow_id;
    status = status_name s.status;
    trigger_type = s.trigger_type;
    trigger_data = Option.map J.write_data s.trigger_data;
    plan = Option.map J.write_plan s.plan;
    step_outputs = J.write_outputs s.step_outputs;
    current_step_id = s.current_step_id;
    retry_count = pos s.retry_count;
    max_retries = pos s.max_retries;
    evaluator_feedback = Option.map J.write_verdict s.evaluator_feedback;
    escalation = Option.map J.write_escalation s.escalation;
    started_at = s.started_at;
    completed_at = s.completed_at;
    updated_at = s.updated_at;
  }

  -- The columns that `checkpoint_session` updates.
  unfoldable pub checkpoint_row : SessionState H → Row → Row
  checkpoint_row s r = record r {
    status = status_name s.status;
    plan = Option.map J.write_plan s.plan;
    step_outputs = J.write_outputs s.step_outputs;
    current_step_id = s.current_step_id;
    retry_count = pos s.retry_count;
    evaluator_feedback = Option.map J.write_verdict s.evaluator_feedback;
    escalation = Option.map J.write_escalation s.escalation;
    completed_at = s.completed_at;
    updated_at = s.updated_at;
  }

  -- The row is one of this session: it has its identity, its trigger and its start.
  abbrev pub IsRowOf : Row → SessionState H → Type 0
  IsRowOf r s =
      (r.id ≡ J.show_id s.id)
      × (r.workflow_id ≡ J.show_id s.workflow_id)
      × (r.trigger_type ≡ s.trigger_type)
      × (r.trigger_data ≡ Option.map J.write_data s.trigger_data)
      × (r.max_retries ≡ pos s.max_retries)
      × (r.started_at ≡ s.started_at)

  pub checkpoint_row-inserted_row :
      (r : Row) (s : SessionState H) → IsRowOf r s → checkpoint_row s r ≡ inserted_row s
  unfolding checkpoint_row inserted_row
  checkpoint_row-inserted_row r s (i, w, t, d, m, a) = rw (i, w, t, d, m, a) refl

  -- The session of a row, with the ids that its texts stand for.
  unfoldable pub decoded_row : H.Uuid → H.Uuid → Row → SessionState H
  decoded_row id workflow_id r = record {
    id = id;
    workflow_id = workflow_id;
    status = parse_session_status r.status;
    trigger_type = r.trigger_type;
    trigger_data = Option.bind r.trigger_data J.read_data;
    plan = Option.bind r.plan J.read_plan;
    step_outputs = Option.get_or (J.read_outputs r.step_outputs) [];
    current_step_id = r.current_step_id;
    retry_count = as_u32 r.retry_count;
    max_retries = as_u32 r.max_retries;
    step_retry_count = 0;
    evaluator_feedback = Option.bind r.evaluator_feedback J.read_verdict;
    escalation = Option.bind r.escalation J.read_escalation;
    pending_modification = none;
    started_at = r.started_at;
    completed_at = r.completed_at;
    updated_at = r.updated_at;
  }

  unfoldable pub parse_session_row : Row → Result String (SessionState H)
  parse_session_row r = elim (J.read_id r.id) [
    | none ↦ err "parse session id"
    | some id ↦ elim (J.read_id r.workflow_id) [
      | none ↦ err "parse session workflow_id"
      | some workflow_id ↦ ok (decoded_row id workflow_id r)
    ]
  ]

  -- `load_resumable_sessions`: the query drops the rows with a final status, and a row that cannot
  -- be parsed is skipped. The rows come in the order of the query.
  unfoldable pub load_resumable_sessions : List Row → List (SessionState H)
  load_resumable_sessions [] = []
  load_resumable_sessions (r ∷ rows) =
      let rest = load_resumable_sessions rows in
      if contains ("completed" ∷ "failed" ∷ "cancelled" ∷ []) r.status
      then rest
      else elim (parse_session_row r) [ ok s ↦ s ∷ rest | err _ ↦ rest ]
