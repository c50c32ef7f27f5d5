-- ===== src/Workflow/Dag/Validate.antt =====
-- `validate_dag` (src/services/workflow/orchestrator.rs) as a whole: its answers and when it gives
-- them.
use botto.Prelude.{
  String, ℕ, ◌≤◌, ◌<◌, ◌≡◌, refl, true, false, List, [], ◌∷◌, contains, count, length, string_key,
  arith, none, some, All, Result, ok, err, Option-cases, Bool-cases, inl, inr, ◌∙◌, ap, ◌==◌, ◌⊎◌,
  ◌≢◌, All-map,
}
use botto.Workflow.Types.{Host, WorkflowStep}
use botto.Workflow.Dag.{
  HashOrder, DagError, missing_dependency, cycle, conclude, sort_dag, validate_dag, find_missing,
  cycle_nodes, unknown_dependency, ids,
}
use botto.Workflow.Dag.Order.{run, run_ok, IsSchedule, sort_dag-IsSchedule, IsRanked}

-- Every dependency is in the list.
abbrev Known : List String → List String → Type 0
Known step_ids deps = All (λ dep. contains step_ids dep ≡ true) deps

unknown_dependency-none :
    (step_ids deps : List String) → Known step_ids deps → unknown_dependency step_ids deps ≡ none
unfolding unknown_dependency
unknown_dependency-none step_ids [] h = refl
unknown_dependency-none step_ids (dep ∷ deps) h = rw h.0 (unknown_dependency-none step_ids deps h.1)

unknown_dependency-some :
    (step_ids deps : List String) (dep : String)
    → unknown_dependency step_ids deps ≡ some dep
    → (contains deps dep ≡ true) × (contains step_ids dep ≡ false)
unfolding unknown_dependency
unknown_dependency-some step_ids [] dep e = cc
unknown_dependency-some step_ids (d ∷ deps) dep e =
    ground (arith, unknown_dependency-some step_ids deps dep)

module _ {H : Host} where
  find_missing-none :
      (step_ids : List String) (steps : List (WorkflowStep H))
      → All (λ s. Known step_ids s.depends_on) steps
      → find_missing step_ids steps ≡ none
  unfolding find_missing
  find_missing-none step_ids [] h = refl
  find_missing-none step_ids (step ∷ steps) h =
      rw (unknown_dependency-none step_ids step.depends_on h.0, find_missing)
        (find_missing-none step_ids steps h.1)

  -- The step of the list that has the id and the dependency.
  abbrev pub Names : List (WorkflowStep H) → String → String → Type 0
  Names [] id dep = ⊥
  Names (s ∷ steps) id dep = (s.id ≡ id) × (contains s.depends_on dep ≡ true) ⊎ Names steps id dep

  find_missing-some :
      (step_ids : List String) (steps : List (WorkflowStep H)) (id dep : String)
      → find_missing step_ids steps ≡ some (id, dep)
      → Names steps id dep × (contains step_ids dep ≡ false)
  unfolding find_missing
  find_missing-some step_ids [] id dep e = cc
  find_missing-some step_ids (s ∷ steps) id dep e =
      elim (Option-cases (unknown_dependency step_ids s.depends_on)) [
        | inl known ↦
            let (named, unknown) =
              find_missing-some step_ids steps id dep (rw (known, find_missing) at e) in
            (inr named, unknown)
        | inr (d, found) ↦
            let (listed, unknown) = unknown_dependency-some step_ids s.depends_on d found in
            let same : (s.id ≡ id) × (d ≡ dep) = ground (arith, rw (found, find_missing) at e) in
            (inl (same.0, rw (← same.1) listed), rw (← same.1) unknown)
      ]

  module _ (hash : HashOrder) (steps : List (WorkflowStep H)) where
    conclude-ok :
        (in_degree : List (String × ℕ)) (sorted : List String)
        → length sorted ≡ length steps
        → conclude hash steps in_degree sorted ≡ ok sorted
    unfolding conclude
    conclude-ok in_degree sorted full = ground arith

    conclude-cases :
        (in_degree : List (String × ℕ)) (sorted : List String)
        → (conclude hash steps in_degree sorted ≡ ok sorted)
          ⊎ ((names : List String) × (conclude hash steps in_degree sorted ≡ err (cycle names)))
    unfolding conclude
    conclude-cases in_degree sorted = elim (Bool-cases (length sorted == length steps)) [
      | inl full ↦ inl (rw full refl)
      | inr short ↦ inr (cycle_nodes hash in_degree, rw short refl)
    ]

    sort_dag-ne-missing :
        (id dep : String) → sort_dag hash steps ≢ some (err (missing_dependency id dep))
    sort_dag-ne-missing id dep e =
        elim (conclude-cases (run hash steps).in_degree (run hash steps).sorted) [
          | inl accepted ↦ cc ((run hash steps).sort)
          | inr (names, refused) ↦ cc ((run hash steps).sort)
        ]

  -- The validation ends with a verdict on every list of steps.
  pub validate_dag-returns :
      (hash : HashOrder) (steps : List (WorkflowStep H))
      → (verdict : Result DagError (List String)) × (validate_dag hash steps ≡ some verdict)
  unfolding validate_dag
  validate_dag-returns hash [] = (ok [], refl)
  validate_dag-returns hash (step ∷ steps) =
      let all = step ∷ steps in
      elim (Option-cases (find_missing (ids all) all)) [
        | inl none_missing ↦ (
          conclude hash all (run hash all).in_degree (run hash all).sorted,
          rw (none_missing, validate_dag) (run hash all).sort,
        )
        | inr ((id, dep), missing) ↦ (err (missing_dependency id dep), rw (missing, validate_dag))
      ]

  -- An accepted list of steps comes back as an order of its ids, each once, in which every step
  -- stands after all of its dependencies; no two of the steps share an id.
  pub validate_dag-IsSchedule :
      (hash : HashOrder) (steps : List (WorkflowStep H)) {order : List String}
      → validate_dag hash steps ≡ some (ok order)
      → IsSchedule steps order
  unfolding validate_dag
  validate_dag-IsSchedule hash [] {order} e =
      let same : order ≡ [] = cc in
      rw same (record { each_once = λ x. refl; distinct = λ x. omega arith; after_deps = tt })
  validate_dag-IsSchedule hash (step ∷ steps) e =
      let all = step ∷ steps in
      elim (Option-cases (find_missing (ids all) all)) [
        | inl none_missing ↦ sort_dag-IsSchedule hash all (rw (none_missing, validate_dag) at e)
        | inr (_, missing) ↦ cc (rw (missing, validate_dag) at e)
      ]

  -- If no two steps share an id, and each dependency is a step of lower rank under some ranking
  -- (so that there is no cycle), then the steps are accepted.
  pub validate_dag-accepts :
      (hash : HashOrder) (steps : List (WorkflowStep H)) (rank : String → ℕ)
      → ((x : String) → count x (ids steps) ≤ 1)
      → IsRanked steps rank
      → (order : List String) × (validate_dag hash steps ≡ some (ok order))
  unfolding validate_dag
  validate_dag-accepts hash [] rank distinct ranked = ([], refl)
  validate_dag-accepts hash (step ∷ steps) rank distinct ranked =
      let all = step ∷ steps in
      let known =
        All-map _ _ (λ s. All-map _ _ (λ dep (listed, _). listed) s.depends_on) all ranked in
      (
        (run hash all).sorted,
        rw (find_missing-none (ids all) all known, validate_dag)
            ((run hash all).sort
              ∙ ap some (conclude-ok hash all _ _ (run_ok hash all rank ranked distinct))),
      )

  -- A missing dependency is reported with a step that names it, and is not the id of any step.
  pub validate_dag-missing :
      (hash : HashOrder) (steps : List (WorkflowStep H)) (id dep : String)
      → validate_dag hash steps ≡ some (err (missing_dependency id dep))
      → Names steps id dep × (contains (ids steps) dep ≡ false)
  unfolding validate_dag
  validate_dag-missing hash [] id dep e = cc
  validate_dag-missing hash (step ∷ steps) id dep e =
      let all = step ∷ steps in
      elim (Option-cases (find_missing (ids all) all)) [
        | inl none_missing ↦
            absurd (sort_dag-ne-missing hash all id dep (rw (none_missing, validate_dag) at e))
        | inr ((i, d), missing) ↦
            let same : (i ≡ id) × (d ≡ dep) = ground (arith, rw (missing, validate_dag) at e) in
            find_missing-some (ids all) all id dep (ground (arith, missing))
      ]

  -- If every dependency is the id of a step and two steps share an id, the steps are refused as a
  -- cycle, whether there is one or not.
  pub validate_dag-repeated_id :
      (hash : HashOrder) (steps : List (WorkflowStep H)) (x : String)
      → All (λ s. All (λ dep. contains (ids steps) dep ≡ true) s.depends_on) steps
      → 1 < count x (ids steps)
      → (names : List String) × (validate_dag hash steps ≡ some (err (cycle names)))
  unfolding validate_dag
  validate_dag-repeated_id hash [] x known twice = absurd (omega arith)
  validate_dag-repeated_id hash (step ∷ steps) x known twice =
      let all = step ∷ steps in
      elim (conclude-cases hash all (run hash all).in_degree (run hash all).sorted) [
        | inl accepted ↦
            let schedule = sort_dag-IsSchedule hash all ((run hash all).sort ∙ ap some accepted) in
            absurd (omega (arith, schedule.distinct x))
        | inr (names, refused) ↦ (
          names,
          rw (find_missing-none (ids all) all known, validate_dag)
              ((run hash all).sort ∙ ap some refused),
        )
      ]
