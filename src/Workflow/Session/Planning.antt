-- ===== src/Workflow/Session/Planning.antt =====
-- The planner's part of a session (src/services/workflow/session.rs): the first plan, and the
-- revised one.
use botto.Prelude.{
  String, ℕ, suc, Bool, true, false, not, List, [], ◌∷◌, ◌++◌, Option, none, some, Result, ok, err,
  ◌<>◌, decimal, join, map, retain, contains, string_key,
}
use botto.Prelude.Maps.{lookup, remove}
use botto.Workflow.Types.{Host}
use botto.Workflow.Session.Types.{
  SessionStatus, SessionState, SessionPlan, PendingPlanModification, EscalationMessage,
  EvaluatorVerdict, MessageDirection, SessionMessage, PlanResult, info, planning, executing,
  clarifying, agent_to_human, human_to_agent, plan_created, clarification_requested,
}
use botto.Workflow.Session.World.{
  Services, SessionManagerConfig, Act, ◌>>=◌, ◌>>◌, pure, modify, call, send, lift, lift_context,
  ok_or, branch, on_option, published, messaged, current, checkpoint_session, append_trace,
  insert_effect, touch, session_escalation, workflow_run_started,
}
use mathlib.Core.Option

abbrev pub is_some {ℓ} : {A : Type ℓ} → Option A → Bool
is_some none = false
is_some (some a) = true

-- `HashMap::contains_key` on the outputs of steps.
abbrev pub has_output : {V : Type 0} → List (String × V) → String → Bool
has_output outputs id = is_some (lookup id outputs)

unfoldable pub step_ids : SessionPlan → List String
step_ids plan = map (λ s. s.id) plan.steps

-- `HashMap::remove` for each key in turn.
unfoldable pub remove_all : {V : Type 0} → List String → List (String × V) → List (String × V)
remove_all [] outputs = outputs
remove_all (k ∷ ks) outputs = remove_all ks (remove k outputs)

unfoldable pub stale_keys : {V : Type 0} → SessionPlan → List (String × V) → List String
stale_keys plan outputs = retain (λ k. not (contains (step_ids plan) k)) (map (λ e. e.0) outputs)

-- The plan with a modification applied.
unfoldable pub modified_plan : SessionPlan → PendingPlanModification → SessionPlan
modified_plan plan m = record plan {
  steps = retain (λ s. not (contains m.remove_step_ids s.id)) plan.steps ++ m.add_steps;
}

-- `{i + 1}. {q}` for each question.
numbered : ℕ → List String → List String
numbered i [] = []
numbered i (q ∷ qs) = (decimal (suc i) <> ". " <> q) ∷ numbered (suc i) qs

is_planning : SessionStatus → Bool
is_planning planning = true
is_planning _ = false

is_from_human : MessageDirection → Bool
is_from_human human_to_agent = true
is_from_human agent_to_human = false

-- `unwrap_or_default`.
ok_or_empty : {E A : Type 0} → Result E (List A) → List A
ok_or_empty (ok xs) = xs
ok_or_empty (err _) = []

contents_from_human : {H : Host} → List (SessionMessage H) → List String
unfolding is_from_human
contents_from_human messages =
    map (λ m. m.content) (retain (λ m. is_from_human m.direction) messages)

failed_parts : {H : Host} → Option (EvaluatorVerdict H) → List (String × String)
failed_parts none = []
failed_parts (some feedback) = ("session", feedback.feedback) ∷ []

module _ {H : Host} (S : Services H) (config : SessionManagerConfig H) where
  -- The trigger's data, with the answers if there are any.
  planning_trigger : H.Value → List String → H.Value
  planning_trigger trigger_data [] = trigger_data
  planning_trigger trigger_data (a ∷ more) = S.with_answers trigger_data (a ∷ more)

  unfoldable pub transition_to_planning : Act H S.Error (Unit {0})
  transition_to_planning = do
    modify λ s. record s { status = planning }
    touch S
    checkpoint_session S

  unfoldable pub load_workflow_description : Act H S.Error String
  load_workflow_description = do
    session ← current S
    answer ← call λ t. S.get_workflow t session.workflow_id
    found ← lift answer
    workflow ←
        ok_or found (S.error ("workflow " <> S.json.show_id session.workflow_id <> " not found"))
    pure workflow.description

  -- The user's answers among the first ten messages of the session, when the session is planned anew.
  unfoldable pub clarification_answers : Act H S.Error (List String)
  unfolding is_planning contents_from_human ok_or_empty
  clarification_answers = do
    session ← current S
    branch (is_planning session.status)
        (do
          answer ← call λ t. S.load_session_messages t session.id 10
          pure (contents_from_human (ok_or_empty answer)))
        (pure [])

  unfoldable pub clarification_message :
      SessionState H → String → List String → String → ℕ → EscalationMessage H
  unfolding numbered
  clarification_message session workflow_desc questions reason t = record {
    session_id = session.id;
    workflow_name = workflow_desc;
    step_id = none;
    severity = info;
    reason = reason;
    what_i_need = join "\n" (numbered 0 questions);
    options = [];
    created_at = S.epoch_secs t;
  }

  -- What `run_planning` does with the planner's result.
  unfoldable pub accept_planning : String → PlanResult → Act H S.Error (Unit {0})
  unfolding numbered
  accept_planning workflow_desc (PlanResult.plan plan) = do
    append_trace S plan_created none none
    modify λ s. record s { plan = some plan; status = executing }
    touch S
    checkpoint_session S
    send (published workflow_run_started)
  accept_planning workflow_desc (PlanResult.needs_clarification questions reason) = do
    append_trace S clarification_requested none none
    session ← current S
    msg ← call (clarification_message session workflow_desc questions reason)
    modify λ s. record s { status = clarifying; escalation = some msg }
    touch S
    checkpoint_session S
    _ ←
        insert_effect S
          (messaged agent_to_human (reason <> "\n\n" <> join "\n" (numbered 0 questions)))
    send (published session_escalation)

  unfoldable pub run_planning : Act H S.Error (Unit {0})
  unfolding planning_trigger
  run_planning = do
    session ← current S
    let trigger_data = Option.get_or session.trigger_data S.empty_object
    workflow_desc ← load_workflow_description
    answers ← clarification_answers
    let trigger = planning_trigger trigger_data answers
    answer ← call λ t. S.create_plan t config.ai_model trigger workflow_desc
    result ← lift_context S "planner failed" answer
    accept_planning workflow_desc result

  -- The revised plan takes the place of the plan, and the outputs of steps that it does not have
  -- are removed.
  unfoldable pub adopt_plan : SessionPlan → Act H S.Error (Unit {0})
  adopt_plan revised = do
    modify λ s. record s { plan = some revised; status = executing; evaluator_feedback = none }
    touch S
    modify λ s. record s {
      step_outputs = remove_all (stale_keys revised s.step_outputs) s.step_outputs;
    }
    checkpoint_session S

  -- The planner's own revision, after an evaluation that failed.
  unfoldable pub ai_replan : SessionPlan → Act H S.Error (Unit {0})
  unfolding failed_parts
  ai_replan plan = do
    session ← current S
    let completed = retain (has_output session.step_outputs) (step_ids plan)
    let failed_steps = failed_parts session.evaluator_feedback
    let new_context = Option.bind session.evaluator_feedback (λ f. f.suggestion)
    answer ← call λ t. S.replan t config.ai_model plan completed failed_steps new_context
    revised ← lift_context S "replanning failed" answer
    adopt_plan revised

  unfoldable pub run_replanning : Act H S.Error (Unit {0})
  run_replanning = do
    session ← current S
    plan ← ok_or session.plan (S.error "session in Adapting state but has no plan")
    on_option session.pending_modification (ai_replan plan) λ modification. do
      modify λ s. record s { pending_modification = none }
      adopt_plan (modified_plan plan modification)
