-- ===== src/Workflow/Session/Reload.antt =====
-- What a restart reads back of a stored session (src/services/workflow/crud.rs).
use botto.Prelude.{
  ℕ, List, [], ◌∷◌, none, some, ◌≡◌, ok, ◌^◌, ◌<◌, contains, string_key, refl, arith, All, not, map,
  retain, Bool-cases, inl, inr, String_discrete,
}
use botto.Prelude.Int.{pos}
use botto.Workflow.Types.{Host}
use botto.Workflow.Session.Types.{
  SessionStatus, SessionState, created, planning, executing, evaluating, adapting,
  waiting_for_human, clarifying, completed, failed, cancelled, is_terminal_session,
}
use botto.Workflow.Session.Stored.{
  Json, Row, status_name, parse_session_status, as_u32, inserted_row, checkpoint_row, IsRowOf,
  checkpoint_row-inserted_row, decoded_row, parse_session_row, load_resumable_sessions,
}
use mathlib.Core.Option

-- A status is read back from its name.
pub parse_session_status-status_name :
    (s : SessionStatus) → parse_session_status (status_name s) ≡ s
unfolding parse_session_status status_name
parse_session_status-status_name created = refl
parse_session_status-status_name planning = refl
parse_session_status-status_name executing = refl
parse_session_status-status_name evaluating = refl
parse_session_status-status_name adapting = refl
parse_session_status-status_name waiting_for_human = refl
parse_session_status-status_name clarifying = refl
parse_session_status-status_name completed = refl
parse_session_status-status_name failed = refl
parse_session_status-status_name cancelled = refl

is_over :
    (s : SessionStatus)
    → contains ("completed" ∷ "failed" ∷ "cancelled" ∷ []) (status_name s) ≡ is_terminal_session s
unfolding status_name is_terminal_session String_discrete
is_over created = refl
is_over planning = refl
is_over executing = refl
is_over evaluating = refl
is_over adapting = refl
is_over waiting_for_human = refl
is_over clarifying = refl
is_over completed = refl
is_over failed = refl
is_over cancelled = refl

as_u32-pos : (n : ℕ) → n < 2 ^ 32 → as_u32 (pos n) ≡ n
unfolding as_u32
as_u32-pos n h = omega arith

-- What of a session is not stored: the count of the step's attempts and a plan's modification
-- that waits to be applied.
unfoldable pub without_transient : {H : Host} → SessionState H → SessionState H
without_transient s = record s { step_retry_count = 0; pending_modification = none }

module _ {H : Host} (J : Json H) where
  -- The parts that are stored as JSON are read back as they were.
  pub record IsReadable (s : SessionState H) : Type 0 where
    pub outputs : J.read_outputs (J.write_outputs s.step_outputs) ≡ some s.step_outputs
    pub trigger : Option.bind (Option.map J.write_data s.trigger_data) J.read_data ≡ s.trigger_data
    pub plan : Option.bind (Option.map J.write_plan s.plan) J.read_plan ≡ s.plan
    pub escalation :
        Option.bind (Option.map J.write_escalation s.escalation) J.read_escalation ≡ s.escalation
    pub feedback :
        Option.bind (Option.map J.write_verdict s.evaluator_feedback) J.read_verdict
        ≡ s.evaluator_feedback

  parse_session_row-ids :
      (r : Row) (id workflow_id : H.Uuid)
      → J.read_id r.id ≡ some id
      → J.read_id r.workflow_id ≡ some workflow_id
      → parse_session_row J r ≡ ok (decoded_row J id workflow_id r)
  unfolding parse_session_row decoded_row
  parse_session_row-ids r id workflow_id e f = rw (e, parse_session_row, f) refl

  decoded_row-inserted_row :
      (s : SessionState H)
      → IsReadable s
      → s.retry_count < 2 ^ 32
      → s.max_retries < 2 ^ 32
      → decoded_row J s.id s.workflow_id (inserted_row J s) ≡ without_transient s
  unfolding decoded_row inserted_row without_transient
  decoded_row-inserted_row s readable hr hm =
      rw
        (
          parse_session_status-status_name s.status,
          readable.outputs,
          readable.trigger,
          readable.feedback,
          readable.plan,
          readable.escalation,
          as_u32-pos s.retry_count hr,
          as_u32-pos s.max_retries hm,
          Option.get_or,
        )
        refl

  -- A session's row is read back as the session.
  pub parse_session_row-inserted_row :
      (s : SessionState H)
      → IsReadable s
      → s.retry_count < 2 ^ 32
      → s.max_retries < 2 ^ 32
      → parse_session_row J (inserted_row J s) ≡ ok (without_transient s)
  parse_session_row-inserted_row s readable hr hm =
      rw (← decoded_row-inserted_row s readable hr hm) (
        parse_session_row-ids (inserted_row J s) s.id s.workflow_id
          (unfold inserted_row in J.read_id-show_id s.id)
          (unfold inserted_row in J.read_id-show_id s.workflow_id))

  -- A checkpoint into a row of the session is read back as the session, when its counters are in
  -- the range of u32 and its JSON parts are read back: all but the count of the step's attempts,
  -- which is 0 again, and the pending modification of the plan, which is gone.
  pub parse_session_row-checkpoint_row :
      (s : SessionState H) (r : Row)
      → IsRowOf J r s
      → IsReadable s
      → s.retry_count < 2 ^ 32
      → s.max_retries < 2 ^ 32
      → parse_session_row J (checkpoint_row J s r) ≡ ok (without_transient s)
  parse_session_row-checkpoint_row s r mine readable hr hm =
      rw (checkpoint_row-inserted_row J r s mine) (parse_session_row-inserted_row s readable hr hm)

  -- What a restart loads of the table is the sessions that are not over, in the order of their rows,
  -- each without what is not stored, when the counters are in the range of u32 and the JSON parts
  -- are read back.
  pub load_resumable_sessions-inserted_row :
      (sessions : List (SessionState H))
      → All (λ s. IsReadable s × (s.retry_count < 2 ^ 32) × (s.max_retries < 2 ^ 32)) sessions
      → load_resumable_sessions J (map (inserted_row J) sessions)
        ≡ map without_transient (retain (λ s. not (is_terminal_session s.status)) sessions)
  unfolding load_resumable_sessions String_discrete inserted_row
  load_resumable_sessions-inserted_row [] h = refl
  load_resumable_sessions-inserted_row (s ∷ sessions) ((readable, hr, hm), h) =
      elim (Bool-cases (is_terminal_session s.status)) [
        | inl over ↦
            rw (over, is_over s.status, over) (load_resumable_sessions-inserted_row sessions h)
        | inr goes_on ↦
            rw
              (
                goes_on,
                is_over s.status,
                goes_on,
                parse_session_row-inserted_row s readable hr hm,
                load_resumable_sessions-inserted_row sessions h,
              )
              refl
      ]
