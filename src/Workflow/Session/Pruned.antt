-- ===== src/Workflow/Session/Pruned.antt =====
-- What a revision of the plan leaves of the outputs (src/services/workflow/session.rs,
-- `run_replanning`).
use botto.Prelude.{
  String, Bool, false, not, ◌||◌, ◌&&◌, List, [], ◌∷◌, none, ◌≡◌, refl, Bool-cases, inl, inr, arith,
  ap, map, retain, contains, contains-append, string_key, if◌then◌else◌,
}
use botto.Prelude.Maps.{lookup, remove, lookup-remove}
use botto.Workflow.Session.Types.{PlanStep, SessionPlan, PendingPlanModification}
use botto.Workflow.Session.Planning.{remove_all, stale_keys, step_ids, modified_plan}
use mathlib.Core.Logic.{if_neg, if_pos}
use mathlib.Core.List.{map-append}

contains-retain :
    (p : String → Bool) (xs : List String) (k : String)
    → contains (retain p xs) k ≡ (p k && contains xs k)
contains-retain p [] k = ground arith
contains-retain p (x ∷ xs) k = elim (Bool-cases (p x)) [
  | inl passes ↦ rw (passes) (elim (string_key.dec x k) [
    | yes same ↦ rw (if_pos _ same, if_pos _ same, ← same, passes) refl
    | no other ↦ rw (if_neg _ other, if_neg _ other) (contains-retain p xs k)
  ])
  | inr fails ↦ rw (fails) (elim (string_key.dec x k) [
    | yes same ↦ rw (contains-retain p xs k, ← same, fails) refl
    | no other ↦ rw (if_neg _ other) (contains-retain p xs k)
  ])
]

map-retain :
    (q : String → Bool) (steps : List PlanStep)
    → map (λ s. s.id) (retain (λ s. q s.id) steps) ≡ retain q (map (λ s. s.id) steps)
map-retain q [] = refl
map-retain q (s ∷ steps) = elim (Bool-cases (q s.id)) [
  | inl kept ↦ rw (kept) (ap (λ l. s.id ∷ l) (map-retain q steps))
  | inr dropped ↦ rw (dropped) (map-retain q steps)
]

step_ids-modified_plan :
    (plan : SessionPlan) (m : PendingPlanModification) (k : String)
    → contains (step_ids (modified_plan plan m)) k ≡ (
        (contains (step_ids plan) k && not (contains m.remove_step_ids k))
        || contains (map (λ s. s.id) m.add_steps) k)
unfolding step_ids modified_plan
step_ids-modified_plan plan m k =
    let q : String → Bool = λ j. not (contains m.remove_step_ids j) in
    rw
      (
        map-append (λ (s : PlanStep). s.id) (retain (λ s. q s.id) plan.steps) m.add_steps,
        map-retain q plan.steps,
        contains-append (retain q (map (λ s. s.id) plan.steps)) (map (λ s. s.id) m.add_steps) k,
        contains-retain q (map (λ s. s.id) plan.steps) k,
      )
      (ground arith)

module _ {V : Type 0} where
  lookup-remove_all :
      (ks : List String) (outputs : List (String × V)) (k : String)
      → lookup k (remove_all ks outputs) ≡ (if contains ks k then none else lookup k outputs)
  unfolding remove_all
  lookup-remove_all [] outputs k = refl
  lookup-remove_all (j ∷ ks) outputs k =
      ground (arith, lookup-remove_all ks (remove j outputs) k, lookup-remove j k outputs)

  lookup-missing :
      (outputs : List (String × V)) (k : String)
      → contains (map (λ e. e.0) outputs) k ≡ false
      → lookup k outputs ≡ none
  unfolding lookup
  lookup-missing [] k h = refl
  lookup-missing ((j, v) ∷ outputs) k h = ground (arith, lookup-missing outputs k, h)

  -- The outputs that a revised plan keeps are those of its steps.
  lookup-stale_keys :
      (plan : SessionPlan) (outputs : List (String × V)) (k : String)
      → lookup k (remove_all (stale_keys plan outputs) outputs)
        ≡ (if contains (step_ids plan) k then lookup k outputs else none)
  unfolding stale_keys
  lookup-stale_keys plan outputs k =
      rw
        (
          lookup-remove_all (stale_keys plan outputs) outputs k,
          contains-retain (λ j. not (contains (step_ids plan) j)) (map (λ e. e.0) outputs) k,
        )
        (elim (Bool-cases (contains (step_ids plan) k)) [
          | inl kept ↦ rw (kept) refl
          | inr dropped ↦ rw (dropped) (elim (Bool-cases (contains (map (λ e. e.0) outputs) k)) [
            | inl there ↦ rw (there) refl
            | inr missing ↦ rw (missing) (lookup-missing outputs k missing)
          ])
        ])

  -- After a modification of the plan is applied, a key has the output that it had, if it is the id of
  -- a step of the plan that was not removed, or of an added step (also of one that the modification
  -- removes and adds anew, whose old output stays), and no output otherwise.
  pub lookup-modified_plan :
      (plan : SessionPlan) (m : PendingPlanModification) (outputs : List (String × V)) (k : String)
      → lookup k (remove_all (stale_keys (modified_plan plan m) outputs) outputs) ≡ (
          if (contains (step_ids plan) k && not (contains m.remove_step_ids k))
            || contains (map (λ s. s.id) m.add_steps) k
          then lookup k outputs
          else none)
  lookup-modified_plan plan m outputs k =
      rw (lookup-stale_keys (modified_plan plan m) outputs k, step_ids-modified_plan plan m k) refl
