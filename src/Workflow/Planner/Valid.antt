-- ===== src/Workflow/Planner/Valid.antt =====
-- The plans that src/services/workflow/planner.rs, `validate_plan`, lets through.
use botto.Prelude.{
  String, ℕ, suc, ◌+◌, ◌<◌, Bool, true, false, List, [], ◌∷◌, Option, none, some, ok, ◌≡◌, refl,
  sym, ◌∙◌, subst, ap, All, string_key, contains, map, retain, length, inl, inr, Option-cases,
  Bool-cases, arith,
}
use botto.Workflow.Session.Types.{PlanStep, SessionPlan}
use botto.Workflow.Session.Next.{InOrder, find_next_step-all_steps_complete}
use botto.Workflow.Session.Planning.{step_ids}
use botto.Workflow.Session.Execution.{find_next_step, all_steps_complete}
use botto.Workflow.Planner.{
  Marks, index_from, filter_map, adjacency, neighbours, range, has_cycle, dupes_of, prune_step,
  pruned, conclude_plan, checked, validate_plan,
}
use botto.Workflow.Planner.Acyclic.{search_from-ranks}
use mathlib.Core.Logic.{if_pos, if_neg}
use mathlib.Core.Option

-- A step that is known has an index.
index_from-known :
    (k : ℕ) (steps : List PlanStep) (id : String)
    → contains (map (λ s. s.id) steps) id ≡ true
    → (j : ℕ) × (index_from k steps id ≡ some j)
unfolding index_from
index_from-known k [] id h = absurd (cc h)
index_from-known k (s ∷ steps) id h = elim (Option-cases (index_from (suc k) steps id)) [
  | inr (j, e) ↦ (j, rw (e) refl)
  | inl e ↦ elim (string_key.dec s.id id) [
    | yes same ↦ (k, rw (e, if_pos (string_key.dec s.id id) same) refl)
    | no other ↦
        let (j, f) = index_from-known (suc k) steps id (rw (if_neg _ other) at h) in
        absurd (cc (e, f))
  ]
]

-- A step that is not known has none.
index_from-unknown :
    (k : ℕ) (steps : List PlanStep) (id : String)
    → contains (map (λ s. s.id) steps) id ≡ false
    → index_from k steps id ≡ none
unfolding index_from
index_from-unknown k [] id h = refl
index_from-unknown k (s ∷ steps) id h = elim (string_key.dec s.id id) [
  | yes same ↦ absurd (cc (rw (if_pos _ same) at h))
  | no other ↦
      rw
        (
          index_from-unknown (suc k) steps id (rw (if_neg _ other) at h),
          if_neg (string_key.dec s.id id) other,
        )
        refl
]

-- Without duplicates, no id that was seen stands among the rest.
dupes_of-seen :
    (seen_ids : List String) (steps : List PlanStep) (id : String)
    → dupes_of seen_ids steps ≡ []
    → contains seen_ids id ≡ true
    → contains (map (λ s. s.id) steps) id ≡ false
unfolding dupes_of
dupes_of-seen seen_ids [] id e h = refl
dupes_of-seen seen_ids (s ∷ steps) id e h = elim (Bool-cases (contains seen_ids s.id)) [
  | inl twice ↦ absurd (cc (rw (twice) at e))
  | inr fresh ↦ elim (string_key.dec s.id id) [
    | yes same ↦ absurd (cc (rw (same) at fresh, h))
    | no other ↦ rw (if_neg (string_key.dec s.id id) other) (
        dupes_of-seen (s.id ∷ seen_ids) steps id (rw (fresh) at e)
          (rw (if_neg (string_key.dec s.id id) other) h))
  ]
]

dupes_of-prune_step :
    (valid_ids seen_ids : List String) (steps : List PlanStep)
    → dupes_of seen_ids (map (prune_step valid_ids) steps) ≡ dupes_of seen_ids steps
unfolding dupes_of prune_step
dupes_of-prune_step valid_ids seen_ids [] = refl
dupes_of-prune_step valid_ids seen_ids (s ∷ steps) =
    rw
      (
        dupes_of-prune_step valid_ids seen_ids steps,
        dupes_of-prune_step valid_ids (s.id ∷ seen_ids) steps,
      )
      refl

ids-prune_step :
    (valid_ids : List String) (steps : List PlanStep)
    → map (λ s. s.id) (map (prune_step valid_ids) steps) ≡ map (λ s. s.id) steps
unfolding prune_step
ids-prune_step valid_ids [] = refl
ids-prune_step valid_ids (s ∷ steps) = ap (λ l. s.id ∷ l) (ids-prune_step valid_ids steps)

retain-All : (p : String → Bool) (xs : List String) → All (λ x. p x ≡ true) (retain p xs)
retain-All p [] = tt
retain-All p (x ∷ xs) = elim (Bool-cases (p x)) [
  | inl passes ↦ rw (passes) (passes, retain-All p xs)
  | inr fails ↦ rw (fails) (retain-All p xs)
]

-- The steps depend on steps of the plan.
AllKnown : List String → List PlanStep → Type 0
AllKnown ids steps = All (λ s. All (λ d. contains ids d ≡ true) s.depends_on) steps

prune_step-AllKnown :
    (ids : List String) (steps : List PlanStep) → AllKnown ids (map (prune_step ids) steps)
unfolding AllKnown prune_step
prune_step-AllKnown ids [] = tt
prune_step-AllKnown ids (s ∷ steps) =
    (retain-All (contains ids) s.depends_on, prune_step-AllKnown ids steps)

filter_map-some :
    (f : String → Option ℕ) (x : String) (xs : List String) {n : ℕ}
    → f x ≡ some n
    → filter_map f (x ∷ xs) ≡ n ∷ filter_map f xs
unfolding filter_map
filter_map-some f x xs e = rw (e, filter_map) refl

found_none :
    (r : Option (Bool × Marks))
    → Option.map (λ s. s.0) r ≡ some false
    → (st : Marks) × (r ≡ some (false, st))
found_none none e = absurd (cc e)
found_none (some (true, st)) e = absurd (ground (arith, e))
found_none (some (false, st)) e = (st, refl)

module _ (all_steps : List PlanStep) (rank : ℕ → ℕ) where
  index : String → Option ℕ
  index = index_from 0 all_steps

  rank_of : String → ℕ
  unfolding index
  rank_of id = rank (Option.get_or (index id) 0)

  deps-less :
      (bound : ℕ) (deps : List String)
      → All (λ d. contains (map (λ s. s.id) all_steps) d ≡ true) deps
      → All (λ n. rank n < bound) (filter_map index deps)
      → All (λ d. (contains (map (λ s. s.id) all_steps) d ≡ true) × (rank_of d < bound)) deps
  unfolding rank_of index
  deps-less bound [] known less = tt
  deps-less bound (d ∷ deps) (here_, known) less =
      let (j, e) = index_from-known 0 all_steps d here_ in
      let (first, others) =
        subst (All (λ n. rank n < bound)) (filter_map-some index d deps e) less in
      ((here_, rw (e) first), deps-less bound deps known others)

  rank_at : (id : String) (k : ℕ) → index id ≡ some k → rank_of id ≡ rank k
  unfolding rank_of
  rank_at id k e = rw (e) refl

  -- A part of the steps, from an index on: what it says of indices holds of all steps.
  IsPart : ℕ → List PlanStep → Type 0
  IsPart k steps = (id : String) (j : ℕ) → index_from k steps id ≡ some j → index id ≡ some j

  IsPart-next :
      (k : ℕ) (s : PlanStep) (steps : List PlanStep) → IsPart k (s ∷ steps) → IsPart (suc k) steps
  unfolding IsPart index_from
  IsPart-next k s steps part id j e = part id j (rw (e) refl)

  part-first :
      (k : ℕ) (s : PlanStep) (steps : List PlanStep)
      → IsPart k (s ∷ steps)
      → contains (map (λ t. t.id) steps) s.id ≡ false
      → index s.id ≡ some k
  unfolding IsPart index_from
  part-first k s steps part alone = part s.id k (
      rw (index_from-unknown (suc k) steps s.id alone, if_pos (string_key.dec s.id s.id) refl) refl)

  RankedFrom : ℕ → List PlanStep → Type 0
  RankedFrom k [] = Unit
  RankedFrom k (s ∷ steps) =
      All (λ n. rank n < rank k) (filter_map index s.depends_on) × RankedFrom (suc k) steps

  range-RankedFrom :
      (adj : List (List ℕ)) (k : ℕ) (steps : List PlanStep)
      → ((i : ℕ)
          → neighbours adj (k + i) ≡ neighbours (map (λ s. filter_map index s.depends_on) steps) i)
      → All (λ i. All (λ n. rank n < rank i) (neighbours adj i)) (range k (length steps))
      → RankedFrom k steps
  unfolding RankedFrom range neighbours
  range-RankedFrom adj k [] same ranked = tt
  range-RankedFrom adj k (s ∷ steps) same (first, others) =
      let at_k : k + 0 ≡ k = omega arith in
      (
        subst (All (λ n. rank n < rank k)) (sym (ap (neighbours adj) at_k) ∙ same 0) first,
        range-RankedFrom adj (suc k) steps
            (λ i.
              let shift : suc k + i ≡ k + suc i = omega arith in
              ap (neighbours adj) shift ∙ same (suc i))
            others,
      )

  steps-InOrder :
      (seen_ids : List String) (k : ℕ) (steps : List PlanStep)
      → IsPart k steps
      → dupes_of seen_ids steps ≡ []
      → AllKnown (map (λ s. s.id) all_steps) steps
      → RankedFrom k steps
      → All (InOrder rank_of (map (λ s. s.id) all_steps)) steps
  unfolding AllKnown RankedFrom dupes_of
  steps-InOrder seen_ids k [] part unique known ranked = tt
  steps-InOrder seen_ids k (s ∷ steps) part unique (here_, known) (first, ranked) =
      elim (Bool-cases (contains seen_ids s.id)) [
        | inl twice ↦ absurd (cc (rw (twice) at unique))
        | inr fresh ↦
            let others : dupes_of (s.id ∷ seen_ids) steps ≡ [] = rw (fresh) at unique in
            let alone =
              dupes_of-seen (s.id ∷ seen_ids) steps s.id others
                (rw (if_pos (string_key.dec s.id s.id) refl) refl) in
            (
              subst
                  (λ r.
                    All (λ d. (contains (map (λ t. t.id) all_steps) d ≡ true) × (rank_of d < r))
                      s.depends_on)
                  (sym (rank_at s.id k (part-first k s steps part alone)))
                  (deps-less (rank k) s.depends_on here_ first),
              steps-InOrder (s.id ∷ seen_ids) (suc k) steps (IsPart-next k s steps part) others
                  known ranked,
            )
      ]

-- What a plan without duplicates, whose dependencies are known and in which no cycle is found, gives.
has_cycle-InOrder :
    (steps : List PlanStep)
    → dupes_of [] steps ≡ []
    → AllKnown (map (λ s. s.id) steps) steps
    → has_cycle steps ≡ some false
    → (rank : String → ℕ) × All (InOrder rank (map (λ s. s.id) steps)) steps
unfolding has_cycle adjacency index IsPart
has_cycle-InOrder steps unique known e =
    let (st', found) = found_none _ e in
    let (rank, ranked) = search_from-ranks (adjacency steps) _ _ st' found in
    (
      rank_of steps rank,
      steps-InOrder steps rank [] 0 steps (λ id j h. h) unique known
          (range-RankedFrom steps rank (adjacency steps) 0 steps
            (λ i. let plus : 0 + i ≡ i = omega arith in ap (neighbours (adjacency steps)) plus)
            ranked),
    )

conclude_plan-ok :
    (plan : SessionPlan) (r : Option Bool) {plan' : SessionPlan}
    → conclude_plan plan r ≡ some (ok plan')
    → (r ≡ some false) × (plan ≡ plan')
unfolding conclude_plan
conclude_plan-ok plan none e = absurd (cc e)
conclude_plan-ok plan (some true) e = absurd (ground (arith, e))
conclude_plan-ok plan (some false) e = (refl, ground (arith, e))

checked-ok :
    (plan : SessionPlan) (steps : List PlanStep) (dupes : List String) {plan' : SessionPlan}
    → checked plan steps dupes ≡ some (ok plan')
    → (dupes ≡ [])
      × (has_cycle (pruned plan.steps) ≡ some false)
      × (record plan { steps = pruned plan.steps } ≡ plan')
unfolding checked
checked-ok plan [] dupes e = absurd (ground (arith, e))
checked-ok plan (s ∷ steps) (d ∷ dupes) e = absurd (ground (arith, e))
checked-ok plan (s ∷ steps) [] e = let (found, same) = conclude_plan-ok _ _ e in (refl, found, same)

-- A plan that the validation lets through is never stuck: whatever outputs there are, if none of its
-- steps is ready, all are complete.
pub validate_plan-never_stuck :
    {V : Type 0} (plan : SessionPlan) (plan' : SessionPlan) (outputs : List (String × V))
    → validate_plan plan ≡ some (ok plan')
    → find_next_step plan' outputs ≡ none
    → all_steps_complete plan' outputs ≡ true
unfolding step_ids pruned validate_plan
validate_plan-never_stuck plan plan' outputs e none_ready =
    let (unique, acyclic, same) = checked-ok plan plan.steps (dupes_of [] plan.steps) e in
    let ids = map (λ (s : PlanStep). s.id) plan.steps in
    let (rank, order) =
      has_cycle-InOrder (pruned plan.steps) (dupes_of-prune_step ids [] plan.steps ∙ unique)
        (subst (λ l. AllKnown l (pruned plan.steps)) (sym (ids-prune_step ids plan.steps))
          (prune_step-AllKnown ids plan.steps))
        acyclic in
    subst (λ p. find_next_step p outputs ≡ none → all_steps_complete p outputs ≡ true) same
      (find_next_step-all_steps_complete outputs rank _ order) none_ready
