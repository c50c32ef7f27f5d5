-- ===== src/Workflow/Session/Next.antt =====
-- Which step of a plan is next, and when a plan is stuck (src/services/workflow/session.rs,
-- `find_next_step` and `all_steps_complete`).
use botto.Prelude.{
  String, ℕ, zero, suc, ◌<◌, true, false, List, [], ◌∷◌, ◌++◌, none, some, ◌≡◌, refl, inl, inr,
  Bool-cases, arith, map, all, All, contains, string_key,
}
use botto.Workflow.Session.Types.{PlanStep, SessionPlan}
use botto.Workflow.Session.Planning.{has_output, step_ids}
use botto.Workflow.Session.Execution.{is_runnable, find_step, find_next_step, all_steps_complete}
use mathlib.Core.Logic.{if_neg, if_pos}

-- The step depends on steps of the plan that come before it in the order.
abbrev pub InOrder : (rank : String → ℕ) → (ids : List String) → PlanStep → Type 0
InOrder rank ids s = All (λ d. (contains ids d ≡ true) × (rank d < rank s.id)) s.depends_on

module _ {V : Type 0} (outputs : List (String × V)) where
  abbrev pub NotReady : PlanStep → Type 0
  NotReady s = is_runnable outputs s ≡ false

  find_step-first :
      (steps : List PlanStep) (step : PlanStep)
      → find_step steps outputs ≡ some step
      → (before : List PlanStep) × (after : List PlanStep) × (steps ≡ before ++ step ∷ after)
        × All NotReady before
        × (is_runnable outputs step ≡ true)
  unfolding find_step
  find_step-first [] step e = absurd (cc e)
  find_step-first (s ∷ steps) step e = elim (Bool-cases (is_runnable outputs s)) [
    | inl ready ↦
        let same : s ≡ step = ground (arith, rw (ready) at e) in
        ([], steps, cc same, tt, cc (same, ready))
    | inr waits ↦
        let (before, after, split, others, ready) = find_step-first steps step (rw (waits) at e) in
        (s ∷ before, after, cc split, (waits, others), ready)
  ]

  find_step-none : (steps : List PlanStep) → find_step steps outputs ≡ none → All NotReady steps
  unfolding find_step
  find_step-none [] e = tt
  find_step-none (s ∷ steps) e = elim (Bool-cases (is_runnable outputs s)) [
    | inl ready ↦ absurd (cc (rw (ready) at e))
    | inr waits ↦ (waits, find_step-none steps (rw (waits) at e))
  ]

  -- The step that is next is the first of the plan that is ready: it has no output, what it depends on
  -- has, and no step before it is ready.
  pub find_next_step-first :
      (plan : SessionPlan) (step : PlanStep)
      → find_next_step plan outputs ≡ some step
      → (before : List PlanStep) × (after : List PlanStep) × (plan.steps ≡ before ++ step ∷ after)
        × All NotReady before
        × (has_output outputs step.id ≡ false)
        × (all (has_output outputs) step.depends_on ≡ true)
  unfolding find_next_step is_runnable
  find_next_step-first plan step e =
      let (before, after, split, others, ready) = find_step-first plan.steps step e in
      (before, after, split, others, ground (arith, ready), ground (arith, ready))

  module _ (rank : String → ℕ) (ids : List String) where
    abbrev Outputs : ℕ → Type 0
    Outputs n = (id : String) → contains ids id ≡ true → rank id < n → has_output outputs id ≡ true

    all_deps :
        (n m : ℕ) (deps : List String)
        → Outputs n
        → m < suc n
        → All (λ d. (contains ids d ≡ true) × (rank d < m)) deps
        → all (has_output outputs) deps ≡ true
    all_deps n m [] below h ok_ = refl
    all_deps n m (d ∷ deps) below h ((known, less), ok_) =
        ground (arith, below d known (omega (arith, less, h)), all_deps n m deps below h ok_)

    of_steps :
        (n : ℕ) (steps : List PlanStep)
        → Outputs n
        → All NotReady steps
        → All (InOrder rank ids) steps
        → (id : String) → contains (map (λ s. s.id) steps) id ≡ true
        → rank id < suc n
        → has_output outputs id ≡ true
    unfolding is_runnable
    of_steps n [] below waits order id known h = absurd (cc known)
    of_steps n (s ∷ steps) below (wait, waits) (deps, order) id known h =
        elim (string_key.dec s.id id) [
          | yes same ↦
              let complete = all_deps n (rank s.id) s.depends_on below (rw (same) h) deps in
              rw (← same) (ground (arith, wait, complete))
          | no other ↦ of_steps n steps below waits order id (rw (if_neg _ other) at known) h
        ]

    Outputs-below :
        (steps : List PlanStep)
        → ((id : String) → contains ids id ≡ true → contains (map (λ s. s.id) steps) id ≡ true)
        → All NotReady steps
        → All (InOrder rank ids) steps
        → (n : ℕ) → Outputs n
    Outputs-below steps known waits order zero id here_ h = absurd (omega (arith, h))
    Outputs-below steps known waits order (suc n) id here_ h =
        of_steps n steps (Outputs-below steps known waits order n) waits order id (known id here_) h

  complete_of :
      (steps more : List PlanStep)
      → ((id : String) → contains (map (λ s. s.id) more) id ≡ true → has_output outputs id ≡ true)
      → ((id : String)
          → contains (map (λ s. s.id) steps) id ≡ true
          → contains (map (λ s. s.id) more) id ≡ true)
      → all (λ s. has_output outputs s.id) steps ≡ true
  complete_of [] more have part = refl
  complete_of (s ∷ steps) more have part = ground (
    arith,
    have s.id (part s.id (rw (if_pos (string_key.dec s.id s.id) refl) refl)),
    complete_of steps more have λ id known. part id (elim (string_key.dec s.id id) [
      | yes same ↦ rw (if_pos (string_key.dec s.id id) same) refl
      | no other ↦ rw (if_neg _ other) known
    ]),
  )

  -- A plan whose steps depend only on steps of the plan that come before them in some order is never
  -- stuck: when no step is ready, all are complete.
  pub find_next_step-all_steps_complete :
      (rank : String → ℕ) (plan : SessionPlan)
      → All (InOrder rank (step_ids plan)) plan.steps
      → find_next_step plan outputs ≡ none
      → all_steps_complete plan outputs ≡ true
  unfolding find_next_step all_steps_complete step_ids
  find_next_step-all_steps_complete rank plan order e =
      complete_of plan.steps plan.steps
        (λ id known.
          Outputs-below rank (step_ids plan) plan.steps (λ _ k. k) (find_step-none plan.steps e)
            order (suc (rank id)) id known (omega arith))
        (λ _ k. k)
