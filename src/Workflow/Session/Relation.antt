-- ===== src/Workflow/Session/Relation.antt =====
-- The life of a session as a step relation: what one round of the loop of
-- src/services/workflow/session.rs, or the answer of a human (escalation.rs), may make of it.
use botto.Prelude.{
  String, ◌+◌, ◌<◌, ◌≤◌, Bool, true, false, Option, none, some, ◌≡◌, ◌<>◌, if◌then◌else◌,
  string_key,
}
use botto.Prelude.Int.{ℤ}
use botto.Prelude.Maps.{insert}
use botto.Workflow.Types.{Host}
use botto.Workflow.Session.Types.{
  SessionStatus, SessionState, SessionPlan, PlanStep, PendingPlanModification, EvaluatorVerdict,
  EscalationMessage, created, planning, executing, evaluating, adapting, clarifying, completed,
  failed,
}
use botto.Workflow.Session.World.{SessionManagerConfig}
use botto.Workflow.Session.Escalation.{escalated}
use botto.Workflow.Session.Planning.{modified_plan, remove_all, stale_keys}
use botto.Workflow.Session.Execution.{find_next_step, all_steps_complete, is_current}

-- The statuses whose work may fail the session.
abbrev pub is_working : SessionStatus → Bool
is_working planning = true
is_working executing = true
is_working evaluating = true
is_working adapting = true
is_working _ = false

module _ {H : Host} where
  abbrev pub ended : SessionStatus → ℤ → ℤ → SessionState H → SessionState H
  ended status now now' s = record s { status = status; completed_at = some now; updated_at = now' }

  abbrev pub begun : PlanStep → ℤ → SessionState H → SessionState H
  begun step now s = record s {
    step_retry_count = if is_current step.id s.current_step_id then s.step_retry_count else 0;
    current_step_id = some step.id;
    updated_at = now;
  }

  abbrev pub adopted : SessionPlan → ℤ → SessionState H → SessionState H
  adopted plan now s = record s {
    plan = some plan;
    status = executing;
    evaluator_feedback = none;
    updated_at = now;
    step_outputs = remove_all (stale_keys plan s.step_outputs) s.step_outputs;
  }

  -- What the run of a step may make of the session that began it.
  pub data StepResult (config : SessionManagerConfig H) (step : PlanStep) (s : SessionState H)
      : SessionState H → Type 0 where
    accepted :
        (output : H.Value) (now : ℤ)
        → StepResult config step s (record s {
          step_outputs = insert step.id output s.step_outputs;
          evaluator_feedback = none;
          step_retry_count = 0;
          updated_at = now;
        })
    retried :
        s.step_retry_count + 1 < config.max_step_retries
        → (feedback : Option (EvaluatorVerdict H)) (now : ℤ)
        → StepResult config step s (record s {
          step_retry_count = s.step_retry_count + 1;
          evaluator_feedback = feedback;
          updated_at = now;
        })
    given_up :
        config.max_step_retries ≤ s.step_retry_count + 1
        → (message : EscalationMessage H) (now : ℤ)
        → StepResult config step s
            (escalated message now (record s { step_retry_count = s.step_retry_count + 1 }))
    connected :
        (capability : String) (connector : H.Value) (now : ℤ)
        → StepResult config step s (record s {
          step_outputs = insert ("_connector_" <> capability) connector s.step_outputs;
          updated_at = now;
        })
    handed_over :
        (message : EscalationMessage H) (now : ℤ)
        → StepResult config step s (escalated message now s)
    modification :
        (output : H.Value) (m : PendingPlanModification) (now : ℤ)
        → StepResult config step s (record s {
          step_outputs = insert step.id output s.step_outputs;
          pending_modification = some m;
          status = adapting;
          updated_at = now;
        })

  pub data SessionStep (config : SessionManagerConfig H) (s : SessionState H)
      : SessionState H → Type 0 where
    started :
        s.status ≡ created
        → (now : ℤ) → SessionStep config s (record s { status = planning; updated_at = now })
    planned :
        s.status ≡ planning
        → (plan : SessionPlan) (now : ℤ)
        → SessionStep config s (record s { plan = some plan; status = executing; updated_at = now })
    asked :
        s.status ≡ planning
        → (message : EscalationMessage H) (now : ℤ)
        → SessionStep config s
            (record s { status = clarifying; escalation = some message; updated_at = now })
    stepped :
        s.status ≡ executing
        → {plan : SessionPlan} {step : PlanStep} {s' : SessionState H} → s.plan ≡ some plan
        → find_next_step plan s.step_outputs ≡ some step
        → (now : ℤ) → StepResult config step (begun step now s) s'
        → SessionStep config s s'
    all_done :
        s.status ≡ executing
        → {plan : SessionPlan} → s.plan ≡ some plan
        → all_steps_complete plan s.step_outputs ≡ true
        → (now : ℤ)
        → SessionStep config s
            (record s { status = evaluating; current_step_id = none; updated_at = now })
    passed :
        s.status ≡ evaluating → (now now' : ℤ) → SessionStep config s (ended completed now now' s)
    rejected :
        s.status ≡ evaluating
        → {plan : SessionPlan} → s.plan ≡ some plan
        → s.retry_count + 1 < config.max_session_retries
        → (verdict : EvaluatorVerdict H) (now : ℤ)
        → SessionStep config s (record s {
          evaluator_feedback = some verdict;
          retry_count = s.retry_count + 1;
          status = adapting;
          updated_at = now;
        })
    given_up :
        s.status ≡ evaluating
        → config.max_session_retries ≤ s.retry_count + 1
        → (verdict : EvaluatorVerdict H) (message : EscalationMessage H) (now : ℤ)
        → SessionStep config s (
            escalated message now
              (record s { evaluator_feedback = some verdict; retry_count = s.retry_count + 1 }))
    modified :
        s.status ≡ adapting
        → {plan : SessionPlan} {m : PendingPlanModification} → s.plan ≡ some plan
        → s.pending_modification ≡ some m
        → (now : ℤ)
        → SessionStep config s
            (adopted (modified_plan plan m) now (record s { pending_modification = none }))
    revised :
        s.status ≡ adapting
        → s.pending_modification ≡ none
        → (plan : SessionPlan) (now : ℤ) → SessionStep config s (adopted plan now s)
    gave_way :
        is_working s.status ≡ true
        → (s' : SessionState H) (now now' : ℤ) → SessionStep config s (ended failed now now' s')
    limited :
        (message : EscalationMessage H) (now : ℤ) → SessionStep config s (escalated message now s)

  -- Any number of steps.
  pub data Reaches (config : SessionManagerConfig H)
      : SessionState H → SessionState H → Type 0 where
    here : {s : SessionState H} → Reaches config s s
    onwards :
        {s s' s'' : SessionState H}
        → SessionStep config s s'
        → Reaches config s' s''
        → Reaches config s s''
