-- ===== src/Workflow/Session/Recovery.antt =====
-- How sessions are created, and resumed after a restart (src/services/workflow/session.rs,
-- `create_session` and `resume_sessions`).
use botto.Prelude.{
  String, ℕ, suc, Bool, true, false, List, [], ◌∷◌, Option, none, some, Result, ok, err, ◌≡◌, refl,
  ap, map, Bool-cases, inl, inr, if◌then◌else◌, ite, string_key,
}
use botto.Workflow.Types.{Host, WorkflowDefinition}
use botto.Workflow.Session.Types.{SessionState, created}
use botto.Workflow.Session.Stored.{Row, inserted_row, load_resumable_sessions}
use botto.Workflow.Session.World.{
  Services, SessionManagerConfig, World, Effect, published, session_escalation,
}
use botto.Workflow.Session.Escalation.{is_paused}
use botto.Workflow.Session.Drive.{drive}
use botto.Workflow.Session.Ends.{Ends, raises}
use botto.Workflow.Session.Failing.{WriteFailed, drive_fails}

-- The table of sessions, what was sent, and the number of calls.
pub record Board : Type 0 where
  pub rows : List Row
  pub sent : List Effect
  pub tick : ℕ

find_row : String → List Row → Option Row
find_row id [] = none
find_row id (r ∷ rows) = ite (string_key.dec r.id id) (some r) (find_row id rows)

put_row : Option Row → List Row → List Row
put_row none rows = rows
put_row (some r) [] = []
put_row (some r) (q ∷ rows) = ite (string_key.dec q.id r.id) r q ∷ put_row (some r) rows

module _ {H : Host} (S : Services H) (config : SessionManagerConfig H) where
  unfoldable pub new_session : H.Uuid → String → Option H.Value → ℕ → SessionState H
  new_session workflow_id trigger_type trigger_data t = record {
    id = S.new_id t;
    workflow_id = workflow_id;
    status = created;
    trigger_type = trigger_type;
    trigger_data = trigger_data;
    plan = none;
    step_outputs = [];
    current_step_id = none;
    retry_count = 0;
    max_retries = 3;
    step_retry_count = 0;
    evaluator_feedback = none;
    escalation = none;
    pending_modification = none;
    started_at = S.epoch_secs t;
    completed_at = none;
    updated_at = S.epoch_secs t;
  }

  -- `create_session`: the session and its row, or what the INSERT failed with.
  unfoldable pub create_session : H.Uuid → String → Option H.Value → ℕ → Result S.Error (World H)
  create_session workflow_id trigger_type trigger_data t =
      let session = new_session workflow_id trigger_type trigger_data t in
      elim (S.write t) as (λ _. Result S.Error (World H)) [
        | some e ↦ err e
        | none ↦ ok (record {
          session = session;
          row = some (inserted_row S.json session);
          sent = [];
          tick = suc t;
        })
      ]

  -- The name of the workflow, for the messages.
  workflow_name_of : Result S.Error (Option (WorkflowDefinition H)) → String
  workflow_name_of (ok (some w)) = w.name
  workflow_name_of _ = "unknown"

  -- What `drive` leaves: whether the session was resumed, and the table.
  after_drive : Board → Result S.Error (Unit {0}) × World H → Bool × Board
  after_drive b (ok _, w) =
      (true, record { rows = put_row w.row b.rows; sent = w.sent; tick = w.tick })
  after_drive b (err _, w) =
      (false, record { rows = put_row w.row b.rows; sent = w.sent; tick = w.tick })

  tell_again : SessionState H → List Effect → List Effect
  tell_again s sent = elim s.escalation [
    | none ↦ sent
    | some _ ↦ published session_escalation ∷ sent
  ]

  -- The body of the loop of `resume_sessions`.
  unfoldable pub resume_session : SessionState H → Board → Bool × Board
  unfolding find_row put_row workflow_name_of after_drive tell_again
  resume_session s b =
      if is_paused s.status
      then (true, record { rows = b.rows; sent = tell_again s b.sent; tick = suc b.tick })
      else after_drive b (
          drive S config (workflow_name_of (S.get_workflow b.tick s.workflow_id)) (record {
            session = s;
            row = find_row (S.json.show_id s.id) b.rows;
            sent = b.sent;
            tick = suc b.tick;
          }))

  unfoldable pub resume_all : List (SessionState H) → Board → List H.Uuid × Board
  resume_all [] b = ([], b)
  resume_all (s ∷ sessions) b =
      let (resumed, b') = resume_session s b in
      let (ids, b'') = resume_all sessions b' in (if resumed then s.id ∷ ids else ids, b'')

  -- `resume_sessions`: the ids of the sessions that were resumed, and what is stored then.
  unfoldable pub resume_sessions : Board → List H.Uuid × Board
  resume_sessions b = resume_all (load_resumable_sessions S.json b.rows) b

  after_drive-true :
      (b : Board) (r : Result S.Error (Unit {0}) × World H)
      → ((t : ℕ) → S.write t ≡ none)
      → Ends (λ _ _. Unit {0}) (WriteFailed S config) r
      → (after_drive b r).0 ≡ true
  unfolding after_drive
  after_drive-true b (ok _, w) sound h = refl
  after_drive-true b (err _, w) sound (raises (t, last, broken)) = absurd (cc (sound t, broken))

  resume_session-true :
      (s : SessionState H) (b : Board)
      → ((t : ℕ) → S.write t ≡ none)
      → (resume_session s b).0 ≡ true
  unfolding resume_session
  resume_session-true s b sound = elim (Bool-cases (is_paused s.status)) [
    | inl paused ↦ rw (paused) refl
    | inr moves ↦ rw (moves) (after_drive-true b _ sound (drive_fails S config _ _))
  ]

  resume_all-ids :
      (sessions : List (SessionState H)) (b : Board)
      → ((t : ℕ) → S.write t ≡ none)
      → (resume_all sessions b).0 ≡ map (λ s. s.id) sessions
  unfolding resume_all
  resume_all-ids [] b sound = refl
  resume_all-ids (s ∷ sessions) b sound =
      rw (resume_session-true s b sound)
        (ap (λ ids. s.id ∷ ids) (resume_all-ids sessions (resume_session s b).1 sound))

  -- When no statement of the database fails, every session of the table that is not over, and whose
  -- row can be read, is resumed, in the order of the rows.
  pub resume_sessions-load_resumable_sessions :
      (b : Board)
      → ((t : ℕ) → S.write t ≡ none)
      → (resume_sessions b).0 ≡ map (λ s. s.id) (load_resumable_sessions S.json b.rows)
  unfolding resume_sessions
  resume_sessions-load_resumable_sessions b sound = resume_all-ids _ b sound
