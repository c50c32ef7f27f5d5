-- ===== src/Workflow/Session/Invariant.antt =====
-- What the status of a session says of its other parts (src/services/workflow/session.rs).
use botto.Prelude.{String, ℕ, Bool, true, ◌≡◌, refl}
use botto.Workflow.Types.{Host}
use botto.Workflow.Session.Types.{
  SessionStatus, SessionState, PlanStep, created, planning, executing, evaluating, adapting,
  waiting_for_human, clarifying, completed, failed, cancelled,
}
use botto.Workflow.Session.World.{SessionManagerConfig, Services, World}
use botto.Workflow.Session.Planning.{is_some}
use botto.Workflow.Session.Drive.{drive, max_iterations}
use botto.Workflow.Session.After.{After, After-mono, Owned, Stored}
use botto.Workflow.Session.Relation.{StepResult, SessionStep, Reaches, here, onwards}
use botto.Workflow.Session.Passes.{Passes, Passes-Reaches}
use botto.Workflow.Session.Loop.{drive-refines-Reaches}

-- A session that executes, evaluates or adapts has a plan, one that waits has an escalation, and
-- one that is over has the time of its end.
unfoldable pub is_standing : SessionStatus → (plan escalation completed_at : Bool) → Bool
is_standing created plan escalation completed_at = true
is_standing planning plan escalation completed_at = true
is_standing executing plan escalation completed_at = plan
is_standing evaluating plan escalation completed_at = plan
is_standing adapting plan escalation completed_at = plan
is_standing waiting_for_human plan escalation completed_at = escalation
is_standing clarifying plan escalation completed_at = escalation
is_standing completed plan escalation completed_at = completed_at
is_standing failed plan escalation completed_at = completed_at
is_standing cancelled plan escalation completed_at = completed_at

module _ {H : Host} where
  unfoldable pub well_formed : SessionState H → Bool
  well_formed s =
      is_standing s.status (is_some s.plan) (is_some s.escalation) (is_some s.completed_at)

module _ {H : Host} (config : SessionManagerConfig H) where
  StepResult-well_formed :
      {step : PlanStep} {s s' : SessionState H}
      → s.status ≡ executing
      → is_some s.plan ≡ true
      → StepResult config step s s'
      → well_formed s' ≡ true
  unfolding well_formed is_standing
  StepResult-well_formed e p (StepResult.accepted output now) = rw (e) p
  StepResult-well_formed e p (StepResult.retried more feedback now) = rw (e) p
  StepResult-well_formed e p (StepResult.given_up last message now) = refl
  StepResult-well_formed e p (StepResult.connected capability connector now) = rw (e) p
  StepResult-well_formed e p (StepResult.handed_over message now) = refl
  StepResult-well_formed e p (StepResult.modification output m now) = p

  SessionStep-well_formed :
      {s s' : SessionState H}
      → SessionStep config s s'
      → well_formed s ≡ true
      → well_formed s' ≡ true
  unfolding well_formed is_standing
  SessionStep-well_formed (SessionStep.started e now) h = refl
  SessionStep-well_formed (SessionStep.planned e plan now) h = refl
  SessionStep-well_formed (SessionStep.asked e message now) h = refl
  SessionStep-well_formed (SessionStep.stepped e p f now result) h =
      StepResult-well_formed e (rw (p) refl) result
  SessionStep-well_formed (SessionStep.all_done e p complete now) h = rw (p) refl
  SessionStep-well_formed (SessionStep.passed e now now') h = refl
  SessionStep-well_formed (SessionStep.rejected e p more verdict now) h = rw (p) refl
  SessionStep-well_formed (SessionStep.given_up e last verdict message now) h = refl
  SessionStep-well_formed (SessionStep.modified e p pending now) h = refl
  SessionStep-well_formed (SessionStep.revised e absent plan now) h = refl
  SessionStep-well_formed (SessionStep.gave_way working s' now now') h = refl
  SessionStep-well_formed (SessionStep.limited message now) h = refl

  pub Reaches-well_formed :
      {s s' : SessionState H} → Reaches config s s' → well_formed s ≡ true → well_formed s' ≡ true
  Reaches-well_formed here h = h
  Reaches-well_formed (onwards step path) h =
      Reaches-well_formed path (SessionStep-well_formed step h)

-- If the status of a session fits its plan, its escalation and its end, and its row is up to date,
-- then the same holds at every pass through the loop of `drive`, and when `drive` returns.
pub drive-well_formed :
    {H : Host} (S : Services H) (config : SessionManagerConfig H) (name : String) (w : World H)
    (k : ℕ) (v : World H)
    → Stored S w
    → well_formed w.session ≡ true
    → Passes S config name max_iterations w k v
    → Stored S v
      × (well_formed v.session ≡ true)
      × After
          (λ _ w'. Stored S w' × (well_formed w'.session ≡ true))
          (Owned S)
          (drive S config name w)
drive-well_formed S config name w k v stored h path =
    let (kept, reached) = Passes-Reaches S config name path stored in
    (
      kept,
      Reaches-well_formed config reached h,
      After-mono (λ _ _ (row, end_, settled). (row, Reaches-well_formed config end_ h))
          (drive-refines-Reaches S config name w stored),
    )
