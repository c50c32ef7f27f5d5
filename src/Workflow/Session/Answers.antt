-- ===== src/Workflow/Session/Answers.antt =====
-- What a human's answer does to a session (src/services/workflow/escalation.rs, `handle_response`).
use botto.Prelude.{
  String, Bool, true, false, Option, none, some, err, ◌≡◌, ◌≢◌, ap, Bool-cases, inl, inr, refl,
  arith, ◌||◌, if◌then◌else◌, ◌<>◌,
}
use botto.Prelude.Int.{ℤ}
use botto.Workflow.Types.{Host}
use botto.Workflow.Session.Types.{
  SessionStatus, SessionState, human_to_agent, created, planning, executing, evaluating, adapting,
  waiting_for_human, clarifying, completed, failed, cancelled,
}
use botto.Workflow.Session.World.{
  Services, World, then_do, published, session_resumed, branch, modify, send, pure, ◌>>◌, touch,
  checkpoint_session, add_session_message,
}
use botto.Workflow.Session.Escalation.{
  handle_response, next_status, is_paused, is_clarifying, is_cancelled, stamp,
}
use botto.Workflow.Session.Stored.{status_name}
use botto.Workflow.Session.Planning.{is_some}
use botto.Workflow.Session.After.{
  After, returns, After-bind, branch-After, Owned, Stored, Stored-Owned, checkpoint_session-After,
  touch-After, add_session_message-After,
}
use text.Mathlib.Text.{◌==◌ as str_eq, starts_with}
use text.Mathlib.TextEquality.{eq_iff}
use botto.Workflow.Session.Invariant.{well_formed, is_standing}

-- Where the answer to a session that waits, or clarifies, leads to.
pub data LeadsTo (status : SessionStatus) (chosen : Option String) : SessionStatus → Type 0 where
  cancels : chosen ≡ some "cancel" → LeadsTo status chosen cancelled
  plans_again : status ≡ clarifying → chosen ≢ some "cancel" → LeadsTo status chosen planning
  replans :
      status ≡ waiting_for_human
      → (option : String) → chosen ≡ some option
      → starts_with option "replan" ≡ true
      → LeadsTo status chosen adapting
  goes_on :
      status ≡ waiting_for_human
      → chosen ≢ some "cancel"
      → ((option : String) → chosen ≡ some option → starts_with option "replan" ≡ false)
      → LeadsTo status chosen executing

-- The end of a session that is cancelled.
unfoldable pub ended_at : SessionStatus → ℤ → Option ℤ → Option ℤ
ended_at cancelled now before = some now
ended_at _ now before = before

-- The session after an answer that led to a status: what it was, with that status, no escalation,
-- and the time of its end if it is cancelled.
abbrev pub answered : {H : Host} → SessionStatus → (now ended : ℤ) → SessionState H → SessionState H
answered next now ended s = record s {
  status = next;
  escalation = none;
  updated_at = now;
  completed_at = ended_at next ended s.completed_at;
}

some_differs : {opt : String} → str_eq opt "cancel" ≡ false → some opt ≢ some "cancel"
some_differs {opt} differs e = ground (arith, differs, eq_iff opt "cancel", e)

next_status-LeadsTo :
    (status : SessionStatus) (chosen : Option String)
    → is_paused status ≡ true
    → LeadsTo status chosen (next_status (is_clarifying status) chosen)
unfolding next_status is_clarifying is_paused
next_status-LeadsTo clarifying none h = LeadsTo.plans_again refl (λ e. cc e)
next_status-LeadsTo clarifying (some opt) h = elim (Bool-cases (str_eq opt "cancel")) [
  | inl cancel ↦ rw (cancel) (LeadsTo.cancels (ap some ((eq_iff opt "cancel").0 cancel)))
  | inr other ↦ rw (other) (LeadsTo.plans_again refl (some_differs other))
]
next_status-LeadsTo waiting_for_human none h =
    LeadsTo.goes_on refl (λ e. cc e) (λ option e. absurd (cc e))
next_status-LeadsTo waiting_for_human (some opt) h = elim (Bool-cases (str_eq opt "cancel")) [
  | inl cancel ↦ rw (cancel) (LeadsTo.cancels (ap some ((eq_iff opt "cancel").0 cancel)))
  | inr other ↦ rw (other) (elim (Bool-cases (starts_with opt "replan")) [
    | inl replan ↦ rw (replan) (LeadsTo.replans refl opt refl replan)
    | inr on ↦
        rw (on) (LeadsTo.goes_on refl (some_differs other) (λ option e. ground (arith, on, e)))
  ])
]
next_status-LeadsTo _ chosen h = absurd (cc h)

ended_at-is_cancelled :
    (next : SessionStatus) (ended : ℤ) (before : Option ℤ)
    → ended_at next ended before ≡ (if is_cancelled next then some ended else before)
unfolding ended_at is_cancelled
ended_at-is_cancelled created ended before = refl
ended_at-is_cancelled planning ended before = refl
ended_at-is_cancelled executing ended before = refl
ended_at-is_cancelled evaluating ended before = refl
ended_at-is_cancelled adapting ended before = refl
ended_at-is_cancelled waiting_for_human ended before = refl
ended_at-is_cancelled clarifying ended before = refl
ended_at-is_cancelled completed ended before = refl
ended_at-is_cancelled failed ended before = refl
ended_at-is_cancelled cancelled ended before = refl

module _ {H : Host} (S : Services H) where
  -- The status that is answered is that of the session, which is stored.
  abbrev pub Answered : Option String → SessionState H → SessionStatus → World H → Type 0
  Answered chosen s next w' =
      Stored S w'
      × ((now : ℤ) × (ended : ℤ) × (w'.session ≡ answered next now ended s))
      × LeadsTo s.status chosen next

  handle_response_paused :
      (content : String) (chosen : Option String) (w : World H)
      → Stored S w
      → is_paused w.session.status ≡ true
      → After (Answered chosen w.session) (Owned S) (
          then_do (add_session_message S human_to_agent content w) (λ _. do
            modify λ s. record s {
              status = next_status (is_clarifying w.session.status) chosen;
              escalation = none;
            }
            touch S
            branch
                (is_cancelled (next_status (is_clarifying w.session.status) chosen))
                (stamp S)
                (pure tt)
            checkpoint_session S
            send (published session_resumed)
            pure (next_status (is_clarifying w.session.status) chosen)))
  unfolding stamp
  handle_response_paused content chosen w stored paused = After-bind (
      add_session_message-After S _ _ w (Stored-Owned S w stored) λ sent t. After-bind (
        returns (
          After-bind (
            touch-After S _ λ now t'. After-bind (
              branch-After _ _ _
                (is_cancelled (next_status (is_clarifying w.session.status) chosen))
                (λ cancels. After-bind (
                  returns (
                    returns (
                      After-bind (
                        checkpoint_session-After S _ (Stored-Owned S w stored) λ t''. After-bind (
                          returns (
                            returns (
                              refl,
                              (
                                now,
                                S.epoch_secs t',
                                rw
                                    (
                                      ended_at-is_cancelled
                                          (next_status (is_clarifying w.session.status) chosen)
                                          (S.epoch_secs t') w.session.completed_at,
                                      cancels,
                                    )
                                    refl,
                              ),
                              next_status-LeadsTo _ chosen paused,
                            ))))))))
                (λ continues. returns (
                  After-bind (
                    checkpoint_session-After S _ (Stored-Owned S w stored) λ t''. After-bind (
                      returns (
                        returns (
                          refl,
                          (
                            now,
                            now,
                            rw
                                (
                                  ended_at-is_cancelled
                                      (next_status (is_clarifying w.session.status) chosen) now
                                      w.session.completed_at,
                                  continues,
                                )
                                refl,
                          ),
                          next_status-LeadsTo _ chosen paused,
                        )))))))))))

  -- The answer to a session that waits, and whose row is up to date: when `handle_response` returns,
  -- it returns the status that the answer leads to (cancelled for "cancel"; else planning for a
  -- session that clarifies; else adapting for an option that begins with "replan", and executing for
  -- any other or none), and the session is stored with that status, no escalation, an end if it was
  -- cancelled, and nothing else changed but the time of its change. When it fails, the row is still
  -- one of the session.
  pub handle_response-Answered :
      (content : String) (chosen : Option String) (w : World H)
      → Stored S w
      → is_paused w.session.status ≡ true
      → After (Answered chosen w.session) (Owned S) (handle_response S content chosen w)
  unfolding handle_response
  handle_response-Answered content chosen w stored paused = After-bind (
      returns (
        After-bind (
          branch-After _ _ _ (is_paused w.session.status)
            (λ _. returns (handle_response_paused content chosen w stored paused))
            (λ not_paused. absurd (cc (paused, not_paused))))))

  -- The answer to a session that does not wait is an error, and changes nothing.
  pub handle_response-unpaused :
      (content : String) (chosen : Option String) (w : World H)
      → is_paused w.session.status ≡ false
      → handle_response S content chosen w ≡ (
        err (
            S.error (
              "session "
              <> S.json.show_id w.session.id
              <> " is in status '"
              <> status_name w.session.status
              <> "', not 'waiting_for_human' or 'clarifying'")),
        w,
      )
  unfolding handle_response then_do branch
  handle_response-unpaused content chosen w h = rw (h, branch, then_do) refl

answered_standing :
    (plan : Bool) (completed_at : Option ℤ) (ended : ℤ) (was_clarifying : Bool)
    (chosen : Option String)
    → (was_clarifying || plan) ≡ true
    → is_standing (next_status was_clarifying chosen) plan false (
        is_some
          (if is_cancelled (next_status was_clarifying chosen) then some ended else completed_at))
      ≡ true
unfolding is_standing next_status is_cancelled
answered_standing plan completed_at ended true none h = refl
answered_standing plan completed_at ended true (some opt) h = ground arith
answered_standing plan completed_at ended false none h = h
answered_standing plan completed_at ended false (some opt) h = ground (arith, h)

-- An answer leaves a session whose status fits its plan, its escalation and its end, if the session
-- was waiting for clarification, or has a plan.
pub answered-well_formed :
    {H : Host} (chosen : Option String) (now ended : ℤ) (s : SessionState H)
    → (is_clarifying s.status || is_some s.plan) ≡ true
    → well_formed (answered (next_status (is_clarifying s.status) chosen) now ended s) ≡ true
unfolding well_formed
answered-well_formed chosen now ended s h =
    rw (ended_at-is_cancelled (next_status (is_clarifying s.status) chosen) ended s.completed_at)
      (answered_standing (is_some s.plan) s.completed_at ended (is_clarifying s.status) chosen h)
