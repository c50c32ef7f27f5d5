-- ===== src/Workflow/Dag/Induction.antt =====
-- Induction along the dependencies of a valid graph of steps.
use botto.Prelude.{
  String, ◌≡◌, List, [], ◌∷◌, ◌++◌, contains, contains-append, string_key, String_discrete, arith,
  All, All-map, All-both, true, subst,
}
use botto.Workflow.Types.{Host, WorkflowStep}
use botto.Workflow.Dag.{ids}
use botto.Workflow.Dag.Order.{RunsAfterDeps, IsSchedule}
use botto.Workflow.Dag.Counting.{count_of_contains, contains_of_count}

All-contains :
    (P : String → Type 0) (xs : List String)
    → ((x : String) → contains xs x ≡ true → P x)
    → All P xs
All-contains P [] h = tt
All-contains P (x ∷ xs) h = (h x (ground arith), All-contains P xs (λ y c. h y (ground (arith, c))))

contains-All :
    (P : String → Type 0) (xs : List String) (x : String) → All P xs → contains xs x ≡ true → P x
contains-All P [] x h c = absurd (cc c)
contains-All P (y ∷ xs) x h c = elim (String_discrete y x) [
  | yes same ↦ subst P same h.0
  | no other ↦ contains-All P xs x h.1 (ground (arith, c, other))
]

module _ {H : Host} where
  named :
      {P : Type 0} (x : String) (steps : List (WorkflowStep H))
      → contains (ids steps) x ≡ true
      → All (λ s. s.id ≡ x → P) steps
      → P
  named x [] c h = absurd (cc c)
  named x (s ∷ steps) c h = elim (String_discrete s.id x) [
    | yes same ↦ h.0 same
    | no other ↦ named x steps (ground (arith, other, c)) h.1
  ]

  module _ (steps : List (WorkflowStep H)) (P : String → Type 0)
      (inherit : All (λ s. All P s.depends_on → P s.id) steps) where
    along :
        (done xs : List String)
        → ((dep : String) → contains done dep ≡ true → P dep)
        → All (λ x. contains (ids steps) x ≡ true) xs
        → RunsAfterDeps steps done xs
        → All P xs
    along done [] before listed runs = tt
    along done (x ∷ xs) before listed runs =
        let here : P x = named x steps listed.0 (
          All-map _ _ (λ s (f, after) e. subst P e (f (All-map _ _ before s.depends_on (after e))))
            steps (All-both _ _ steps inherit runs.0)) in
        (here, along (done ++ x ∷ []) xs (next here) listed.1 runs.1)
      where
        next : P x → (dep : String) → contains (done ++ x ∷ []) dep ≡ true → P dep
        next here dep c = elim (String_discrete x dep) [
          | yes same ↦ subst P same here
          | no other ↦ before dep (ground (arith, c, other, contains-append done (x ∷ []) dep))
        ]

    pub by_schedule :
        (order : List String)
        → IsSchedule steps order
        → (x : String) → contains (ids steps) x ≡ true
        → P x
    by_schedule order schedule x listed =
        contains-All P order x
          (along [] order (λ dep h. absurd (cc h))
            (All-contains _ order (λ y h.
              contains_of_count y _
                (omega (arith, count_of_contains y order h, schedule.each_once y))))
            schedule.after_deps)
          (contains_of_count x _
            (omega (arith, count_of_contains x (ids steps) listed, schedule.each_once x)))
