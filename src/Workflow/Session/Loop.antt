-- ===== src/Workflow/Session/Loop.antt =====
-- The loop of src/services/workflow/session.rs, `drive`, against the session's step relation.
use botto.Prelude.{
  String, ℕ, zero, suc, Bool, true, false, List, ◌∷◌, none, Result, ok, err, ◌≡◌, refl, sym, subst,
  inl, inr, ◌⊎◌,
}
use botto.Prelude.Int.{ℤ}
use botto.Workflow.Types.{Host}
use botto.Workflow.Session.Types.{
  SessionStatus, SessionState, EscalationMessage, created, planning, executing, evaluating,
  adapting, waiting_for_human, clarifying, completed, failed, cancelled, is_terminal_session,
}
use botto.Workflow.Session.World.{
  Services, SessionManagerConfig, World, Act, Effect, then_do, branch, published,
  session_escalation,
}
use botto.Workflow.Session.Escalation.{is_paused}
use botto.Workflow.Session.Drive.{
  or_fail, or_fail_outcome, re_emit, round, escalate_limit, drive_loop, drive, max_iterations,
}
use botto.Workflow.Session.After.{
  After, returns, raises, After-bind, After-mono, branch-After, on_option-After, Owned, Stored,
  Stored-Owned, escalate-After,
}
use botto.Workflow.Session.Relation.{SessionStep, Reaches, here, onwards, is_working}
use botto.Workflow.Session.Outcomes.{fail_session-After}
use botto.Workflow.Session.Rounds.{
  Moved, transition_to_planning-After, run_planning-After, run_next_step-After,
  run_evaluation-After, run_replanning-After,
}

module _ {H : Host} (S : Services H) (config : SessionManagerConfig H) where
  or_fail-After :
      (act : Act H S.Error (Unit {0})) (reason : S.Error → String) (w : World H)
      → is_working w.session.status ≡ true
      → After (Moved S config w.session) (Owned S) (act w)
      → After (Moved S config w.session) (Owned S) (or_fail S config act reason w)
  unfolding or_fail or_fail_outcome
  or_fail-After act reason w working h = by_outcome (act w) h
    where
      by_outcome :
          (r : Result S.Error (Unit {0}) × World H)
          → After (Moved S config w.session) (Owned S) r
          → After (Moved S config w.session) (Owned S) (or_fail_outcome S config reason r)
      by_outcome (ok _, v) (returns q) = returns q
      by_outcome (err e, v) (raises owned) =
          fail_session-After S config (reason e) v _ owned (SessionStep.gave_way working v.session)

  -- The session is over, or it waits, and the last thing sent told of its escalation.
  abbrev pub Settled : World H → Type 0
  Settled w =
      (is_terminal_session w.session.status ≡ true)
      ⊎ ((is_paused w.session.status ≡ true)
          × ((w.session.escalation ≡ none)
              ⊎ ((before : List Effect) × (w.sent ≡ published session_escalation ∷ before))))

  -- A round that goes on has taken a step; one that does not has left the session as it was.
  abbrev pub Rounded : World H → Bool → World H → Type 0
  Rounded w true w' = Moved S config w.session tt w'
  Rounded w false w' = (w'.row ≡ w.row) × (w'.session ≡ w.session) × Settled w'

  goes_on :
      (w : World H) {r : Result S.Error (Unit {0}) × World H}
      → After (Moved S config w.session) (Owned S) r
      → After (Rounded w) (Owned S) (then_do r (λ _ v. (ok true, v)))
  goes_on w h = After-bind (After-mono (λ _ _ q. returns q) h)

  stays :
      (w : World H)
      → is_paused w.session.status ≡ true
      → After (Rounded w) (Owned S) (then_do (re_emit S config w) (λ _ v. (ok false, v)))
  unfolding re_emit
  stays w paused = After-bind (
      After-bind (
        returns (
          on_option-After _ _ _ w.session.escalation
            (λ absent. returns (returns (refl, refl, inr (paused, inl absent))))
            (λ m present. returns (returns (refl, refl, inr (paused, inr (w.sent, refl))))))))

  pub round-After :
      (name : String) (w : World H) (status : SessionStatus)
      → Owned S w
      → w.session.status ≡ status
      → After (Rounded w) (Owned S) (round S config name status w)
  unfolding round is_terminal_session is_paused
  round-After name w created owned e = goes_on w (transition_to_planning-After S config w owned e)
  round-After name w planning owned e =
      goes_on w (or_fail-After _ _ w (rw (e) refl) (run_planning-After S config w owned e))
  round-After name w executing owned e =
      goes_on w (or_fail-After _ _ w (rw (e) refl) (run_next_step-After S config name w owned e))
  round-After name w evaluating owned e =
      goes_on w (or_fail-After _ _ w (rw (e) refl) (run_evaluation-After S config name w owned e))
  round-After name w adapting owned e =
      goes_on w (or_fail-After _ _ w (rw (e) refl) (run_replanning-After S config w owned e))
  round-After name w waiting_for_human owned e = stays w (rw (e) refl)
  round-After name w clarifying owned e = stays w (rw (e) refl)
  round-After name w completed owned e = returns (refl, refl, inl (rw (e) refl))
  round-After name w failed owned e = returns (refl, refl, inl (rw (e) refl))
  round-After name w cancelled owned e = returns (refl, refl, inl (rw (e) refl))

  -- What the loop leaves: the session went down the step relation, it is stored, and it is settled.
  abbrev pub Driven : SessionState H → Unit {0} → World H → Type 0
  Driven s _ w = Stored S w × Reaches config s w.session × Settled w

  escalate_limit-After :
      (message : SessionState H → ℤ → EscalationMessage H) (w : World H)
      → Owned S w
      → After (Driven w.session) (Owned S) (escalate_limit S config message w)
  unfolding escalate_limit
  escalate_limit-After message w owned = After-bind (
      returns (
        After-bind (
          returns (
            escalate-After S _ _ owned λ now sent t. (
              refl,
              onwards (SessionStep.limited _ now) here,
              inr (unfold is_paused in refl, inr (sent, refl)),
            )))))

  drive_loop-After :
      (name : String) (n : ℕ) (w : World H)
      → Stored S w
      → After (Driven w.session) (Owned S) (drive_loop S config name n w)
  unfolding drive_loop
  drive_loop-After name zero w stored = escalate_limit-After _ w (Stored-Owned S w stored)
  drive_loop-After name (suc n) w stored = After-bind (
      returns (
        branch-After _ _ _ _ (λ late. escalate_limit-After _ _ (Stored-Owned S w stored))
          (λ in_time. After-bind (
            returns (
              After-bind (
                After-mono (next (λ v kept. drive_loop-After name n v kept))
                  (round-After name now w.session.status (Stored-Owned S w stored) refl)))))))
    where
      now : World H
      now = record w { tick = suc w.tick }

      next :
          ((v : World H)
            → Stored S v
            → After (Driven v.session) (Owned S) (drive_loop S config name n v))
          → (again : Bool) (w' : World H) → Rounded now again w'
          → After
              (Driven w.session)
              (Owned S)
              (branch again (drive_loop S config name n) (λ v. (ok tt, v)) w')
      next loop true w' (stored', step) =
          unfold branch in
          After-mono (λ _ _ (kept, path, settled). (kept, onwards step path, settled))
            (loop w' stored')
      next loop false w' (row, same, settled) =
          unfold branch in
          returns {w = w'} (
            rw (row, same) stored,
            subst (λ s. Reaches config w.session s) (sym same) here,
            settled,
          )

  -- When `drive` returns, from a session whose row is up to date, the row is up to date again, the
  -- session went down the step relation, and it is over, or it waits and the last thing sent was
  -- the notice of its escalation, if it has one. When it fails, the row is still one of the session.
  pub drive-refines-Reaches :
      (name : String) (w : World H)
      → Stored S w
      → After (Driven w.session) (Owned S) (drive S config name w)
  unfolding drive
  drive-refines-Reaches name w stored = drive_loop-After name max_iterations w stored
