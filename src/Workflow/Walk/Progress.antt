-- ===== src/Workflow/Walk/Progress.antt =====
-- How many steps are pending, the measure by which the loops of the walk end.
use botto.Prelude.{
  String, ℕ, suc, ◌<◌, ◌≤◌, ◌≡◌, refl, List, [], ◌∷◌, contains, string_key, arith, true, false,
  if◌then◌else◌, some, length,
}
use botto.Prelude.Maps.{lookup, insert, lookup-insert}
use botto.Workflow.Types.{Host, WorkflowStep, StepState}
use botto.Workflow.Dag.{ids}
use botto.Workflow.Walk.{States, is_pending}

module _ {H : Host} where
  abbrev pub pending_count : List (WorkflowStep H) → States H → ℕ
  pending_count [] states = 0
  pending_count (s ∷ steps) states =
      let rest = pending_count steps states in
      if is_pending (lookup s.id states) then suc rest else rest

  module _ (id : String) (state : StepState H) (states : States H)
      (was : is_pending (lookup id states) ≡ true) (now : is_pending (some state) ≡ false) where
    pub pending_count-insert-le :
        (steps : List (WorkflowStep H))
        → pending_count steps (insert id state states) ≤ pending_count steps states
    pending_count-insert-le [] = omega arith
    pending_count-insert-le (s ∷ steps) =
        ground (arith, pending_count-insert-le steps, lookup-insert id s.id state states)

    pub pending_count-insert-lt :
        (steps : List (WorkflowStep H))
        → contains (ids steps) id ≡ true
        → pending_count steps (insert id state states) < pending_count steps states
    pending_count-insert-lt [] h = cc
    pending_count-insert-lt (s ∷ steps) h = ground (
      arith,
      pending_count-insert-le steps,
      pending_count-insert-lt steps,
      lookup-insert id s.id state states,
    )

  pub pending_count-congr :
      (steps : List (WorkflowStep H)) (states states' : States H)
      → ((id : String) → lookup id states ≡ lookup id states')
      → pending_count steps states ≡ pending_count steps states'
  pending_count-congr [] states states' same = refl
  pending_count-congr (s ∷ steps) states states' same =
      ground (arith, same s.id, pending_count-congr steps states states' same)

  pub pending_count-le :
      (steps : List (WorkflowStep H)) (states : States H)
      → pending_count steps states ≤ length steps
  pending_count-le [] states = omega arith
  pending_count-le (s ∷ steps) states = ground (arith, pending_count-le steps states)
