-- ===== src/Workflow/Session/World.antt =====
-- What a session manager works on (src/services/workflow/session.rs, `SessionManager`): the
-- session, its row, and what it sends out; and the services that it calls, as a parameter.
use botto.Prelude.{
  String, ℕ, Bool, true, false, List, ◌∷◌, Option, none, some, Result, ok, err, suc,
}
use botto.Prelude.Int.{ℤ}
use botto.Workflow.Types.{Host, WorkflowDefinition}
use botto.Workflow.Session.Types.{
  SessionState, SessionPlan, PlanStep, EvaluatorVerdict, GeneratorOutcome, PlanResult,
  ConnectorResult, MessageDirection, SessionMessage, TraceEventType,
}
use botto.Workflow.Session.Stored.{Json, Row, checkpoint_row}
use mathlib.Core.Option

-- The types of events that sessions publish (src/services/events/mod.rs).
pub data EventType : Type 0 where
  workflow_run_started workflow_run_completed workflow_step_started : EventType
  workflow_step_completed workflow_step_failed session_escalation session_resumed : EventType

-- `SessionManagerConfig`.
pub record SessionManagerConfig (H : Host) : Type 0 where
  pub max_step_retries : ℕ
  pub max_session_retries : ℕ
  pub eval_threshold : H.Float
  pub ai_model : String

-- What the manager calls and what those calls answer. The first argument is the moment of the call,
-- so that two calls may answer differently. `write` tells whether a statement of the database
-- fails, `elapsed` is the time since `drive` began, in nanoseconds. `with_answers` inserts the
-- answers of the user under "clarification_answers" if the value is an object, and
-- `connector_info` is the object that `run_next_step` builds of a connector. `new_id` is
-- `Uuid::new_v4`.
pub record Services (H : Host) : Type 1 where
  pub Error : Type 0
  pub ConnectorSpec : Type 0
  pub error : String → Error
  pub context : String → Error → Error
  pub show_error : Error → String
  pub show_chain : Error → String
  pub json : Json H
  pub empty_object : H.Value
  pub with_answers : H.Value → List String → H.Value
  pub connector_info : ConnectorSpec → H.Value
  pub new_id : ℕ → H.Uuid
  pub epoch_secs : ℕ → ℤ
  pub elapsed : ℕ → ℕ
  pub write : ℕ → Option Error
  pub get_workflow : ℕ → H.Uuid → Result Error (Option (WorkflowDefinition H))
  pub load_session_messages : ℕ → H.Uuid → ℕ → Result Error (List (SessionMessage H))
  pub create_plan : ℕ → String → H.Value → String → Result Error PlanResult
  pub replan :
      ℕ
      → String
      → SessionPlan
      → List String
      → List (String × String)
      → Option String
      → Result Error SessionPlan
  pub execute_step :
      ℕ
      → PlanStep
      → List (String × H.Value)
      → String
      → Option (EvaluatorVerdict H)
      → Option H.Value
      → Result Error (GeneratorOutcome H)
  pub evaluate_step :
      ℕ → String → PlanStep → H.Value → Option H.Float → Result Error (EvaluatorVerdict H)
  pub evaluate_session :
      ℕ
      → String
      → String
      → List (String × H.Value)
      → Option H.Float
      → Result Error (EvaluatorVerdict H)
  pub find_or_build : ℕ → String → String → String → Result Error (ConnectorResult ConnectorSpec)

-- What leaves the manager besides the session's row.
pub data Effect : Type 0 where
  traced : TraceEventType → (step_id error : Option String) → Effect
  messaged : MessageDirection → (content : String) → Effect
  published : EventType → Effect

-- The session that `drive` holds, its row if there is one, what was sent (the last first), and how
-- many calls were made.
pub record World (H : Host) : Type 0 where
  pub session : SessionState H
  pub row : Option Row
  pub sent : List Effect
  pub tick : ℕ

-- A method with `&mut SessionState`: what it changed of the session stays when it fails.
abbrev pub Act : Host → Type 0 → Type 0 → Type 0
Act H E A = World H → Result E A × World H

unfoldable pub then_do :
    {H : Host} {E A B : Type 0} → Result E A × World H → (A → Act H E B) → Result E B × World H
then_do (ok a, w) f = f a w
then_do (err e, w) f = (err e, w)

infixl 5 ◌>>=◌ ◌>>◌
abbrev pub ◌>>=◌ : {H : Host} {E A B : Type 0} → Act H E A → (A → Act H E B) → Act H E B
◌>>=◌ m f w = then_do (m w) f

abbrev pub ◌>>◌ : {H : Host} {E B : Type 0} → Act H E (Unit {0}) → Act H E B → Act H E B
◌>>◌ m k w = then_do (m w) (λ _. k)

module _ {H : Host} {E : Type 0} where
  abbrev pub pure : {A : Type 0} → A → Act H E A
  pure a w = (ok a, w)

  abbrev pub fail : {A : Type 0} → E → Act H E A
  fail e w = (err e, w)

  -- `session.field = value`.
  abbrev pub modify : (SessionState H → SessionState H) → Act H E (Unit {0})
  modify f w = (ok tt, record w { session = f w.session })

  -- A call of a service, which takes a moment.
  abbrev pub call : {A : Type 0} → (ℕ → A) → Act H E A
  call f w = (ok (f w.tick), record w { tick = suc w.tick })

  -- `EventBus::publish`, which never fails.
  abbrev pub send : Effect → Act H E (Unit {0})
  send e w = (ok tt, record w { sent = e ∷ w.sent })

  -- `result?`.
  unfoldable pub lift : {A : Type 0} → Result E A → Act H E A
  lift (ok a) w = (ok a, w)
  lift (err e) w = (err e, w)

  -- `option.ok_or_else(…)?`.
  unfoldable pub ok_or : {A : Type 0} → Option A → E → Act H E A
  ok_or (some a) e w = (ok a, w)
  ok_or none e w = (err e, w)

  -- `if test { … } else { … }`, and a `match` on an option or on a result.
  unfoldable pub branch : {A : Type 0} → Bool → Act H E A → Act H E A → Act H E A
  branch true f g w = f w
  branch false f g w = g w

  unfoldable pub on_option : {A B : Type 0} → Option B → Act H E A → (B → Act H E A) → Act H E A
  on_option none f g w = f w
  on_option (some b) f g w = g b w

  unfoldable pub on_result :
      {F A B : Type 0} → Result F B → (F → Act H E A) → (B → Act H E A) → Act H E A
  on_result (err e) f g w = f e w
  on_result (ok b) f g w = g b w

module _ {H : Host} (S : Services H) where
  -- `result.context(…)?`.
  unfoldable pub lift_context : {A : Type 0} → String → Result S.Error A → Act H S.Error A
  lift_context text (ok a) w = (ok a, w)
  lift_context text (err e) w = (err (S.context text e), w)

  -- `crud::checkpoint_session`: an UPDATE, which finds the row or changes nothing.
  unfoldable pub checkpoint_session : Act H S.Error (Unit {0})
  checkpoint_session w = elim (S.write w.tick) [
    | some e ↦ (err e, record w { tick = suc w.tick })
    | none ↦ (
      ok tt,
      record w { row = Option.map (checkpoint_row S.json w.session) w.row; tick = suc w.tick },
    )
  ]

  -- A statement that inserts a trace or a message: its failure, if any.
  unfoldable pub insert_effect : Effect → Act H S.Error (Option S.Error)
  insert_effect e w = elim (S.write w.tick) [
    | some error ↦ (ok (some error), record w { tick = suc w.tick })
    | none ↦ (ok none, record w { sent = e ∷ w.sent; tick = suc w.tick })
  ]

  -- `append_trace`, whose failure is only logged.
  unfoldable pub append_trace :
      TraceEventType → (step_id error : Option String) → Act H S.Error (Unit {0})
  unfolding insert_effect
  append_trace t step_id error = do _ ← insert_effect (traced t step_id error); pure tt

  unfoldable pub add_session_message : MessageDirection → String → Act H S.Error (Unit {0})
  unfolding insert_effect
  add_session_message d content = do
    failure ← insert_effect (messaged d content)
    on_option failure (pure tt) fail

  -- `session.updated_at = crud::epoch_secs()`.
  unfoldable pub touch : Act H S.Error (Unit {0})
  touch = do now ← call S.epoch_secs; modify λ s. record s { updated_at = now }

  -- The session as it is now.
  abbrev pub current : Act H S.Error (SessionState H)
  current w = (ok w.session, w)
