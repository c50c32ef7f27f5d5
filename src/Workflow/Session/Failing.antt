-- ===== src/Workflow/Session/Failing.antt =====
-- The errors of `drive` (src/services/workflow/session.rs), and the guard on its time.
use botto.Prelude.{
  String, ℕ, zero, suc, ◌<◌, Bool, true, false, some, Result, ok, err, ◌≡◌, refl, Option-cases, inl,
  inr, arith,
}
use botto.Prelude.Int.{ℤ}
use botto.Workflow.Types.{Host}
use botto.Workflow.Session.Types.{
  SessionStatus, SessionState, EscalationMessage, MessageDirection, created, planning, executing,
  evaluating, adapting, waiting_for_human, clarifying, completed, failed, cancelled,
}
use botto.Workflow.Session.World.{
  Services, SessionManagerConfig, World, Act, then_do, checkpoint_session, insert_effect,
  add_session_message, on_option,
}
use botto.Workflow.Session.Escalation.{escalate, escalated, stamp}
use botto.Workflow.Session.Planning.{transition_to_planning}
use botto.Workflow.Session.Execution.{fail_session}
use botto.Workflow.Session.Drive.{
  or_fail, or_fail_outcome, re_emit, round, escalate_limit, drive_loop, drive, max_iterations,
  max_duration,
}
use botto.Workflow.Session.Ends.{
  Ends, returns, raises, Ends-bind, Ends-mono, branch-Ends, on_option-Ends, touch-Ends,
  append_trace-Ends,
}
use botto.Workflow.Session.Passes.{Passes, drive_loop-Passes}

module _ {H : Host} (S : Services H) (config : SessionManagerConfig H) where
  -- The last call that was made was a statement of the database, and the error is its failure.
  abbrev pub WriteFailed : S.Error → World H → Type 0
  WriteFailed e w = (t : ℕ) × (w.tick ≡ suc t) × (S.write t ≡ some e)

  abbrev Same : SessionState H → Unit {0} → World H → Type 0
  Same s _ w = w.session ≡ s

  checkpoint_session_fails :
      (w : World H) → Ends (Same w.session) WriteFailed (checkpoint_session S w)
  unfolding checkpoint_session
  checkpoint_session_fails w = elim (Option-cases (S.write w.tick)) [
    | inl written ↦ rw (written, checkpoint_session) (returns refl)
    | inr (e, broken) ↦ rw (broken, checkpoint_session) (raises (w.tick, refl, broken))
  ]

  add_session_message_fails :
      (d : MessageDirection) (content : String) (w : World H)
      → Ends (Same w.session) WriteFailed (add_session_message S d content w)
  unfolding add_session_message insert_effect then_do on_option
  add_session_message_fails d content w = elim (Option-cases (S.write w.tick)) [
    | inl written ↦
        rw (written, add_session_message, insert_effect, then_do, on_option) (returns refl)
    | inr (e, broken) ↦
        rw (broken, add_session_message, insert_effect, then_do, on_option)
          (raises (w.tick, refl, broken))
  ]

  escalate_fails :
      (message : EscalationMessage H) (w : World H)
      → Ends
          (λ _ w'. (now : ℤ) × (w'.session ≡ escalated message now w.session))
          WriteFailed
          (escalate S message w)
  unfolding escalate
  escalate_fails message w = Ends-bind (
      returns (
        Ends-bind (
          touch-Ends S _ λ now t. Ends-bind (
            Ends-mono
              (λ _ v same. Ends-bind (
                append_trace-Ends S _ _ _ _ λ sent t'. Ends-bind (
                  Ends-mono (λ _ v' same'. returns (now, cc (same, same')))
                    (add_session_message_fails _ _ _))))
              (checkpoint_session_fails _)))))

  fail_session_fails :
      (reason : String) (w : World H)
      → Ends (λ _ _. Unit {0}) WriteFailed (fail_session S config reason w)
  unfolding fail_session stamp
  fail_session_fails reason w = Ends-bind (
      append_trace-Ends S _ _ _ _ λ sent t. Ends-bind (
        returns (
          Ends-bind (
            Ends-bind (
              returns (
                returns (
                  Ends-bind (
                    touch-Ends S _ λ now t'.
                      Ends-bind
                        (Ends-mono (λ _ _ _. returns tt) (checkpoint_session_fails _))))))))))

  or_fail_fails :
      (act : Act H S.Error (Unit {0})) (reason : S.Error → String) (w : World H)
      → Ends (λ _ _. Unit {0}) WriteFailed (or_fail S config act reason w)
  unfolding or_fail or_fail_outcome
  or_fail_fails act reason w = by_outcome (act w)
    where
      by_outcome :
          (r : Result S.Error (Unit {0}) × World H)
          → Ends (λ _ _. Unit {0}) WriteFailed (or_fail_outcome S config reason r)
      by_outcome (ok _, v) = returns tt
      by_outcome (err e, v) = fail_session_fails (reason e) v

  goes :
      (b : Bool) {r : Result S.Error (Unit {0}) × World H}
      → Ends (λ _ _. Unit {0}) WriteFailed r
      → Ends (λ _ _. Unit {0}) WriteFailed (then_do r (λ _ v. (ok b, v)))
  goes b h = Ends-bind (Ends-mono (λ _ _ _. returns tt) h)

  round_fails :
      (name : String) (w : World H) (status : SessionStatus)
      → Ends (λ _ _. Unit {0}) WriteFailed (round S config name status w)
  unfolding round re_emit transition_to_planning
  round_fails name w created = goes true (
      Ends-bind (
        returns (
          Ends-bind
            (touch-Ends S _ λ now t. Ends-mono (λ _ _ _. tt) (checkpoint_session_fails _)))))
  round_fails name w planning = goes true (or_fail_fails _ _ w)
  round_fails name w executing = goes true (or_fail_fails _ _ w)
  round_fails name w evaluating = goes true (or_fail_fails _ _ w)
  round_fails name w adapting = goes true (or_fail_fails _ _ w)
  round_fails name w waiting_for_human =
      goes false
        (Ends-bind (returns (on_option-Ends _ _ _ _ (λ _. returns tt) (λ _ _. returns tt))))
  round_fails name w clarifying =
      goes false
        (Ends-bind (returns (on_option-Ends _ _ _ _ (λ _. returns tt) (λ _ _. returns tt))))
  round_fails name w completed = returns tt
  round_fails name w failed = returns tt
  round_fails name w cancelled = returns tt

  escalate_limit_fails :
      (message : SessionState H → ℤ → EscalationMessage H) (w : World H)
      → Ends
          (λ _ w'. (m : EscalationMessage H) × (now : ℤ) × (w'.session ≡ escalated m now w.session))
          WriteFailed
          (escalate_limit S config message w)
  unfolding escalate_limit
  escalate_limit_fails message w = Ends-bind (
      returns
        (Ends-bind (returns (Ends-mono (λ _ _ (now, same). (_, now, same)) (escalate_fails _ _)))))

  drive_loop_fails :
      (name : String) (n : ℕ) (w : World H)
      → Ends (λ _ _. Unit {0}) WriteFailed (drive_loop S config name n w)
  unfolding drive_loop
  drive_loop_fails name zero w = Ends-mono (λ _ _ _. tt) (escalate_limit_fails _ w)
  drive_loop_fails name (suc n) w = Ends-bind (
      returns (
        branch-Ends _ _ _ _ (λ _. Ends-mono (λ _ _ _. tt) (escalate_limit_fails _ _))
          (λ _. Ends-bind (
            returns (
              Ends-bind (
                Ends-mono
                  (λ again v _.
                    branch-Ends _ _ _ again (λ _. drive_loop_fails name n v) (λ _. returns tt))
                  (round_fails name _ w.session.status)))))))

  -- `drive` returns, or it fails with the error of a statement of the database, which was the last
  -- call that it made: an error of the planner, the generator, the evaluator or the connector builder
  -- never leaves it.
  pub drive_fails :
      (name : String) (w : World H) → Ends (λ _ _. Unit {0}) WriteFailed (drive S config name w)
  unfolding drive
  drive_fails name w = drive_loop_fails name max_iterations w

  late_round :
      (name : String) (k : ℕ) (v : World H)
      → max_duration < S.elapsed v.tick
      → Ends
          (λ _ w'. (m : EscalationMessage H) × (now : ℤ) × (w'.session ≡ escalated m now v.session))
          WriteFailed
          (drive_loop S config name (suc k) v)
  unfolding drive_loop
  late_round name k v late = Ends-bind (
      returns (
        branch-Ends _ _ _ _ (λ _. escalate_limit_fails _ _)
          (λ early. absurd (ground (arith, late, early)))))

  -- The guard on the time comes before the status is looked at: if an hour is over at a pass through
  -- the loop of `drive` that has iterations left, then the session of that pass, in any status, a
  -- completed one too, is made to wait for a human when `drive` returns, and nothing else of it
  -- changes but its escalation and the time of its change; or `drive` fails with the error of a
  -- statement of the database.
  pub drive_late :
      (name : String) (w : World H) (k : ℕ) (v : World H)
      → Passes S config name max_iterations w (suc k) v
      → max_duration < S.elapsed v.tick
      → Ends
          (λ _ w'. (m : EscalationMessage H) × (now : ℤ) × (w'.session ≡ escalated m now v.session))
          WriteFailed
          (drive S config name w)
  unfolding drive
  drive_late name w k v path late =
      rw (drive_loop-Passes S config name path) (late_round name k v late)
