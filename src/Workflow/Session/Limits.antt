-- ===== src/Workflow/Session/Limits.antt =====
-- The counts of attempts in src/services/workflow/session.rs and the limits of the manager's
-- configuration.
use botto.Prelude.{
  String, ℕ, ◌<◌, ◌≤◌, Bool, true, false, ◌≡◌, refl, ◌⊎◌, inl, inr, arith, ◌||◌, ◌&&◌, ltb, leb,
  Bool-cases,
}
use botto.Prelude.Int.{ℤ}
use botto.Workflow.Types.{Host}
use botto.Workflow.Session.Types.{
  SessionStatus, SessionState, EscalationMessage, PlanStep, created, planning, executing,
  evaluating, adapting, waiting_for_human,
}
use botto.Workflow.Session.World.{SessionManagerConfig, Services, World}
use botto.Workflow.Session.Drive.{drive, max_iterations}
use botto.Workflow.Session.After.{After, After-mono, Owned, Stored}
use botto.Workflow.Session.Loop.{drive-refines-Reaches}
use botto.Workflow.Session.Passes.{Passes, Passes-Reaches}
use botto.Workflow.Session.Escalation.{escalated}
use botto.Workflow.Session.Planning.{is_some}
use botto.Workflow.Session.Execution.{is_current}
use botto.Workflow.Session.Relation.{StepResult, SessionStep, Reaches, here, onwards, begun}

is_waiting : SessionStatus → Bool
is_waiting waiting_for_human = true
is_waiting _ = false

module _ {H : Host} (config : SessionManagerConfig H) where
  below : SessionState H → Bool
  below s =
      ltb s.step_retry_count config.max_step_retries && ltb s.retry_count config.max_session_retries

  at_most : SessionState H → Bool
  at_most s =
      leb s.step_retry_count config.max_step_retries && leb s.retry_count config.max_session_retries

  -- The counts of attempts are below their limits, or a human was asked, and one of them may have
  -- reached its limit; a session that has ended is not counted.
  unfoldable pub within_limits : SessionState H → Bool
  unfolding below at_most is_waiting
  within_limits s = below s || (is_waiting s.status && at_most s) || is_some s.completed_at

  -- What a session that is not waiting gives.
  Below : SessionState H → Type 0
  Below s =
      (is_some s.completed_at ≡ true)
      ⊎ ((s.step_retry_count < config.max_step_retries)
          × (s.retry_count < config.max_session_retries))

  -- What any session gives.
  AtMost : SessionState H → Type 0
  AtMost s =
      (is_some s.completed_at ≡ true)
      ⊎ ((s.step_retry_count ≤ config.max_step_retries)
          × (s.retry_count ≤ config.max_session_retries))

  Below-of_within :
      (s : SessionState H) (st : SessionStatus)
      → s.status ≡ st
      → is_waiting st ≡ false
      → within_limits s ≡ true
      → Below s
  unfolding within_limits below Below
  Below-of_within s st e running h = elim (Bool-cases (is_some s.completed_at)) [
    | inl over ↦ inl over
    | inr open_ ↦ inr (ground (arith, rw (e, running, open_) at h))
  ]

  AtMost-of_within : (s : SessionState H) → within_limits s ≡ true → AtMost s
  unfolding within_limits below at_most AtMost
  AtMost-of_within s h = elim (Bool-cases (is_some s.completed_at)) [
    | inl over ↦ inl over
    | inr open_ ↦ inr (ground (arith, rw (open_) at h))
  ]

  within_of_Below : (s : SessionState H) → Below s → within_limits s ≡ true
  unfolding within_limits below Below
  within_of_Below s (inl over) = ground (arith, over)
  within_of_Below s (inr (h, h')) = ground arith

  within_of_AtMost :
      (s : SessionState H) → s.status ≡ waiting_for_human → AtMost s → within_limits s ≡ true
  unfolding within_limits below at_most is_waiting AtMost
  within_of_AtMost s e (inl over) = ground (arith, over)
  within_of_AtMost s e (inr (h, h')) = rw (e) (ground arith)

  Below-map :
      (s s' : SessionState H)
      → s'.completed_at ≡ s.completed_at
      → (s.step_retry_count < config.max_step_retries
          → s'.step_retry_count < config.max_step_retries)
      → (s.retry_count < config.max_session_retries → s'.retry_count < config.max_session_retries)
      → Below s
      → Below s'
  unfolding Below
  Below-map s s' c f g (inl over) = inl (rw (c) over)
  Below-map s s' c f g (inr (h, h')) = inr (f h, g h')

  AtMost-map :
      (s s' : SessionState H)
      → s'.completed_at ≡ s.completed_at
      → (s.step_retry_count < config.max_step_retries
          → s'.step_retry_count ≤ config.max_step_retries)
      → (s.retry_count < config.max_session_retries → s'.retry_count ≤ config.max_session_retries)
      → Below s
      → AtMost s'
  unfolding Below AtMost
  AtMost-map s s' c f g (inl over) = inl (rw (c) over)
  AtMost-map s s' c f g (inr (h, h')) = inr (f h, g h')

  escalated-AtMost :
      (message : EscalationMessage H) (now : ℤ) (s : SessionState H)
      → AtMost s
      → AtMost (escalated message now s)
  unfolding AtMost
  escalated-AtMost message now s h = h

  over : (s : SessionState H) → is_some s.completed_at ≡ true → Below s
  unfolding Below
  over s e = inl e

  begun-Below :
      (step : PlanStep) (now : ℤ) (s : SessionState H) → Below s → Below (begun step now s)
  begun-Below step now s =
      Below-map s (begun step now s) refl
        (λ h. elim (Bool-cases (is_current step.id s.current_step_id)) [
          | inl again ↦ rw (again) h
          | inr other ↦ rw (other) (omega (arith, h))
        ])
        (λ h. h)

  StepResult-within_limits :
      {step : PlanStep} {s s' : SessionState H}
      → Below s
      → StepResult config step s s'
      → within_limits s' ≡ true
  StepResult-within_limits {s = s} b (StepResult.accepted output now) =
      within_of_Below _ (Below-map s _ refl (λ h. omega (arith, h)) (λ h. h) b)
  StepResult-within_limits {s = s} b (StepResult.retried more feedback now) =
      within_of_Below _ (Below-map s _ refl (λ _. more) (λ h. h) b)
  StepResult-within_limits {s = s} b (StepResult.given_up last message now) =
      within_of_AtMost _ refl
        (AtMost-map s _ refl (λ h. omega (arith, h)) (λ h. omega (arith, h)) b)
  StepResult-within_limits {s = s} b (StepResult.connected capability connector now) =
      within_of_Below _ (Below-map s _ refl (λ k. k) (λ k. k) b)
  StepResult-within_limits {s = s} b (StepResult.handed_over message now) =
      within_of_AtMost _ refl
        (AtMost-map s _ refl (λ h. omega (arith, h)) (λ h. omega (arith, h)) b)
  StepResult-within_limits {s = s} b (StepResult.modification output m now) =
      within_of_Below _ (Below-map s _ refl (λ k. k) (λ k. k) b)

  SessionStep-within_limits :
      {s s' : SessionState H}
      → SessionStep config s s'
      → within_limits s ≡ true
      → within_limits s' ≡ true
  unfolding is_waiting
  SessionStep-within_limits {s = s} (SessionStep.started e now) h =
      within_of_Below _ (Below-map s _ refl (λ k. k) (λ k. k) (Below-of_within s created e refl h))
  SessionStep-within_limits {s = s} (SessionStep.planned e plan now) h =
      within_of_Below _ (Below-map s _ refl (λ k. k) (λ k. k) (Below-of_within s planning e refl h))
  SessionStep-within_limits {s = s} (SessionStep.asked e message now) h =
      within_of_Below _ (Below-map s _ refl (λ k. k) (λ k. k) (Below-of_within s planning e refl h))
  SessionStep-within_limits {s = s} (SessionStep.stepped e {step = step} p f now result) h =
      StepResult-within_limits (begun-Below step now s (Below-of_within s executing e refl h))
        result
  SessionStep-within_limits {s = s} (SessionStep.all_done e p complete now) h =
      within_of_Below _
        (Below-map s _ refl (λ k. k) (λ k. k) (Below-of_within s executing e refl h))
  SessionStep-within_limits {s = s} (SessionStep.passed e now now') h =
      within_of_Below _ (over _ refl)
  SessionStep-within_limits {s = s} (SessionStep.rejected e p more verdict now) h =
      within_of_Below _
        (Below-map s _ refl (λ k. k) (λ _. more) (Below-of_within s evaluating e refl h))
  SessionStep-within_limits {s = s} (SessionStep.given_up e last verdict message now) h =
      within_of_AtMost _ refl (
        AtMost-map s _ refl (λ k. omega (arith, k)) (λ k. omega (arith, k))
          (Below-of_within s evaluating e refl h))
  SessionStep-within_limits {s = s} (SessionStep.modified e p pending now) h =
      within_of_Below _ (Below-map s _ refl (λ k. k) (λ k. k) (Below-of_within s adapting e refl h))
  SessionStep-within_limits {s = s} (SessionStep.revised e absent plan now) h =
      within_of_Below _ (Below-map s _ refl (λ k. k) (λ k. k) (Below-of_within s adapting e refl h))
  SessionStep-within_limits (SessionStep.gave_way working s' now now') h =
      within_of_Below _ (over _ refl)
  SessionStep-within_limits {s = s} (SessionStep.limited message now) h =
      within_of_AtMost _ refl (escalated-AtMost message now s (AtMost-of_within s h))

  -- No session that the step relation reaches, from one whose counts of attempts are below their
  -- limits or which waits for a human with counts at most there, has other counts: as long as it
  -- has not ended, they are below the limits or it waits with counts at most there.
  pub Reaches-within_limits :
      {s s' : SessionState H}
      → Reaches config s s'
      → within_limits s ≡ true
      → within_limits s' ≡ true
  Reaches-within_limits here h = h
  Reaches-within_limits (onwards step path) h =
      Reaches-within_limits path (SessionStep-within_limits step h)

-- A session that has no time of its end has counts of attempts below their limits, or waits for a
-- human with counts at most there: if this is so of the session that `drive` starts with, and its row
-- is up to date, then it is so at every pass through the loop of `drive`, and when `drive` returns.
pub drive-within_limits :
    {H : Host} (S : Services H) (config : SessionManagerConfig H) (name : String) (w : World H)
    (k : ℕ) (v : World H)
    → Stored S w
    → within_limits config w.session ≡ true
    → Passes S config name max_iterations w k v
    → (within_limits config v.session ≡ true)
      × After (λ _ w'. within_limits config w'.session ≡ true) (Owned S) (drive S config name w)
drive-within_limits S config name w k v stored h path = (
  Reaches-within_limits config (Passes-Reaches S config name path stored).1 h,
  After-mono (λ _ _ (kept, reached, settled). Reaches-within_limits config reached h)
      (drive-refines-Reaches S config name w stored),
)
