-- ===== src/Workflow/Planner/Fuel.antt =====
-- The fuel of the search for cycles (src/services/workflow/planner.rs, `has_cycle`).
use botto.Prelude.{
  String, ℕ, zero, suc, ◌+◌, ◌<◌, ◌≤◌, Bool, true, false, List, [], ◌∷◌, Option, some, Result, ◌≡◌,
  refl, ◌∙◌, ap, All, nat_key, string_key, length, map, inl, inr, Option-cases, arith,
}
use botto.Prelude.Maps.{insert}
use botto.Workflow.Session.Types.{PlanStep, SessionPlan}
use botto.Workflow.Planner.{
  Mark, Marks, mark, Search, on_search, by_mark, visit_all, dfs, neighbours, search_from, unvisited,
  in_path, explored, range, has_cycle, adjacency, index_from, filter_map, validate_plan, checked,
  conclude_plan, pruned, dupes_of,
}
use botto.Workflow.Planner.Acyclic.{mark-insert}
use mathlib.Core.Logic.{if_pos, if_neg}
use mathlib.Core.Option

fresh_count : Mark → ℕ
fresh_count unvisited = 1
fresh_count in_path = 0
fresh_count explored = 0

-- How many of the first `n` nodes are unvisited.
unvisited_count : ℕ → Marks → ℕ
unvisited_count zero st = 0
unvisited_count (suc n) st = fresh_count (mark st n) + unvisited_count n st

fresh_count_le : (m : Mark) → fresh_count m ≤ 1
unfolding fresh_count
fresh_count_le unvisited = omega arith
fresh_count_le in_path = omega arith
fresh_count_le explored = omega arith

unvisited_count_le : (n : ℕ) (st : Marks) → unvisited_count n st ≤ n
unfolding unvisited_count
unvisited_count_le zero st = omega arith
unvisited_count_le (suc n) st = omega (arith, fresh_count_le (mark st n), unvisited_count_le n st)

-- A node that is marked is counted no longer.
count-insert-le :
    (n i : ℕ) (m : Mark) (st : Marks)
    → fresh_count m ≡ 0
    → unvisited_count n (insert i m st) ≤ unvisited_count n st
unfolding unvisited_count
count-insert-le zero i m st none_ = omega arith
count-insert-le (suc n) i m st none_ =
    let rest = count-insert-le n i m st none_ in
    rw (mark-insert i n m st) (elim (nat_key.dec i n) [
      | yes same ↦ rw (if_pos (nat_key.dec i n) same, none_) (omega (arith, rest))
      | no other ↦ rw (if_neg (nat_key.dec i n) other) (omega (arith, rest))
    ])

count-insert-lt :
    (n i : ℕ) (m : Mark) (st : Marks)
    → fresh_count m ≡ 0
    → mark st i ≡ unvisited
    → i < n
    → unvisited_count n (insert i m st) < unvisited_count n st
unfolding unvisited_count fresh_count
count-insert-lt zero i m st none_ fresh h = absurd (omega (arith, h))
count-insert-lt (suc n) i m st none_ fresh h =
    let rest = count-insert-le n i m st none_ in
    rw (mark-insert i n m st) (elim (nat_key.dec i n) [
      | yes same ↦
          rw (if_pos (nat_key.dec i n) same, none_, ← same, fresh)
            (omega (arith, rw (← same) at rest))
      | no other ↦
          rw (if_neg (nat_key.dec i n) other)
            (omega (arith, count-insert-lt n i m st none_ fresh (omega (arith, h, other))))
    ])

module _ (n : ℕ) where
  -- The search answers, and marks nodes only.
  Returns : Marks → Option (Bool × Marks) → Type 0
  Returns st r =
      (b : Bool) × (st' : Marks) × (r ≡ some (b, st'))
      × (unvisited_count n st' ≤ unvisited_count n st)

  -- A search that answers from every state with at most `w` unvisited nodes.
  Answers : ℕ → Search → Type 0
  Answers w go =
      (node : ℕ) (st : Marks)
      → node < n
      → mark st node ≡ unvisited
      → unvisited_count n st ≤ w
      → Returns st (go node st)

  on_search-Returns :
      (w : ℕ) (st : Marks) (r : Option (Bool × Marks)) (k : Marks → Option (Bool × Marks))
      → Returns st r
      → ((v : Marks) → unvisited_count n v ≤ w → Returns v (k v))
      → unvisited_count n st ≤ w
      → Returns st (on_search r k)
  unfolding Returns on_search
  on_search-Returns w st r k (true, v, e, less) rest h = rw (e) (true, v, refl, less)
  on_search-Returns w st r k (false, v, e, less) rest h =
      let (b, u, f, less') = rest v (omega (arith, less, h)) in
      rw (e) (b, u, f, omega (arith, less, less'))

  one-Returns :
      (w : ℕ) (go : Search) (node : ℕ) (st : Marks) (k : Marks → Option (Bool × Marks))
      (met : Option (Bool × Marks)) (m : Mark)
      → Answers w go
      → node < n
      → mark st node ≡ m
      → ((v : Marks) → unvisited_count n v ≤ w → Returns v (k v))
      → Returns st met
      → unvisited_count n st ≤ w
      → Returns st (by_mark m (on_search (go node st) k) met (k st))
  unfolding by_mark Answers
  one-Returns w go node st k met unvisited answers h at_node rest met_ less =
      on_search-Returns w st (go node st) k (answers node st h at_node less) rest less
  one-Returns w go node st k met in_path answers h at_node rest met_ less = met_
  one-Returns w go node st k met explored answers h at_node rest met_ less = rest st less

  visit_all-Returns :
      (w : ℕ) (go : Search)
      → Answers w go
      → (ns : List ℕ) (st : Marks) → All (λ i. i < n) ns
      → unvisited_count n st ≤ w
      → Returns st (visit_all go ns st)
  unfolding visit_all Returns
  visit_all-Returns w go answers [] st inside h = (false, st, refl, omega arith)
  visit_all-Returns w go answers (i ∷ ns) st (first, inside) h =
      one-Returns w go i st (visit_all go ns) (some (true, st)) (mark st i) answers first refl
        (λ v. visit_all-Returns w go answers ns v inside) (true, st, refl, omega arith) h

  search_from-Returns :
      (w : ℕ) (go : Search)
      → Answers w go
      → (ns : List ℕ) (st : Marks) → All (λ i. i < n) ns
      → unvisited_count n st ≤ w
      → Returns st (search_from go ns st)
  unfolding search_from Returns
  search_from-Returns w go answers [] st inside h = (false, st, refl, omega arith)
  search_from-Returns w go answers (i ∷ ns) st (first, inside) h =
      one-Returns w go i st (search_from go ns) (search_from go ns st) (mark st i) answers first
        refl (λ v. search_from-Returns w go answers ns v inside)
        (search_from-Returns w go answers ns st inside h) h

  left-Returns :
      (i : ℕ) (v : Marks) (r : Option (Bool × Marks))
      → unvisited_count n (insert i in_path v) < unvisited_count n v
      → Returns (insert i in_path v) r
      → Returns v (on_search r (λ u. some (false, insert i explored u)))
  unfolding Returns on_search fresh_count
  left-Returns i v r entered (true, u, e, less) =
      rw (e) (true, u, refl, omega (arith, less, entered))
  left-Returns i v r entered (false, u, e, less) = rw (e) (
    false,
    insert i explored u,
    refl,
    omega (arith, less, entered, count-insert-le n i explored u refl),
  )

  dfs-Answers :
      (fuel : ℕ) (adj : List (List ℕ))
      → ((i : ℕ) → All (λ j. j < n) (neighbours adj i))
      → Answers fuel (dfs fuel adj)
  unfolding dfs Answers fresh_count
  dfs-Answers zero adj inside node st h fresh less =
      absurd (omega (arith, less, count-insert-lt n node in_path st refl fresh h))
  dfs-Answers (suc fuel) adj inside node st h fresh less =
      let entered = count-insert-lt n node in_path st refl fresh h in
      left-Returns node st _ entered (
        visit_all-Returns fuel (dfs fuel adj) (dfs-Answers fuel adj inside) (neighbours adj node)
          (insert node in_path st) (inside node) (omega (arith, less, entered)))

index_from-lt :
    (i : ℕ) (steps : List PlanStep) (id : String) (j : ℕ)
    → index_from i steps id ≡ some j
    → j < i + length steps
unfolding index_from
index_from-lt i [] id j e = absurd (cc e)
index_from-lt i (s ∷ steps) id j e = elim (Option-cases (index_from (suc i) steps id)) [
  | inl nothing ↦ elim (string_key.dec s.id id) [
    | yes same ↦
        let e' = rw (nothing, if_pos (string_key.dec s.id id) same) at e in ground (arith, e')
    | no other ↦
        let e' = rw (nothing, if_neg (string_key.dec s.id id) other) at e in
        absurd (ground (arith, e'))
  ]
  | inr (k, found) ↦
      let later = index_from-lt (suc i) steps id k found in
      let e' = rw (found) at e in ground (arith, later, e')
]

filter_map-All :
    {P : ℕ → Type 0} (f : String → Option ℕ) (xs : List String)
    → ((x : String) (j : ℕ) → f x ≡ some j → P j)
    → All P (filter_map f xs)
unfolding filter_map
filter_map-All f [] good = tt
filter_map-All f (x ∷ xs) good =
    let rest = filter_map-All f xs good in
    elim (Option-cases (f x)) [
      | inl nothing ↦ rw (All, nothing) rest
      | inr (j, found) ↦ rw (All, found) (good x j found, rest)
    ]

neighbours-lt :
    (steps : List PlanStep) (f : String → Option ℕ) (n : ℕ)
    → ((x : String) (j : ℕ) → f x ≡ some j → j < n)
    → (i : ℕ)
    → All (λ j. j < n) (neighbours (map (λ (s : PlanStep). filter_map f s.depends_on) steps) i)
unfolding neighbours
neighbours-lt [] f n good i = tt
neighbours-lt (s ∷ steps) f n good zero = filter_map-All f s.depends_on good
neighbours-lt (s ∷ steps) f n good (suc i) = neighbours-lt steps f n good i

range-lt : (i k n : ℕ) → i + k ≤ n → All (λ j. j < n) (range i k)
unfolding range
range-lt i zero n h = tt
range-lt i (suc k) n h = (omega (arith, h), range-lt (suc i) k n (omega (arith, h)))

-- The search for cycles has fuel enough: it answers for every list of steps.
pub has_cycle-total : (steps : List PlanStep) → (b : Bool) × (has_cycle steps ≡ some b)
unfolding has_cycle Returns Answers adjacency
has_cycle-total steps =
    let n = length steps in
    let inside =
      neighbours-lt steps (index_from 0 steps) n
        (λ x j e. omega (arith, index_from-lt 0 steps x j e)) in
    let (b, st, e, less) =
      search_from-Returns n (suc n) (dfs (suc n) (adjacency steps))
        (dfs-Answers n (suc n) (adjacency steps) inside) (range 0 n) []
        (range-lt 0 n n (omega arith)) (omega (arith, unvisited_count_le n [])) in
    (b, ap (Option.map (λ r. r.0)) e)

conclude_plan-returns :
    (plan : SessionPlan) (b : Bool)
    → (r : Result String SessionPlan) × (conclude_plan plan (some b) ≡ some r)
unfolding conclude_plan
conclude_plan-returns plan true = (_, refl)
conclude_plan-returns plan false = (_, refl)

checked-returns :
    (plan : SessionPlan) (steps : List PlanStep) (dupes : List String)
    → (r : Result String SessionPlan) × (checked plan steps dupes ≡ some r)
unfolding checked
checked-returns plan [] dupes = (_, refl)
checked-returns plan (s ∷ steps) (d ∷ dupes) = (_, refl)
checked-returns plan (s ∷ steps) [] =
    let (b, e) = has_cycle-total (pruned plan.steps) in
    let (r, same) = conclude_plan-returns (record plan { steps = pruned plan.steps }) b in
    (r, ap (conclude_plan _) e ∙ same)

-- The validation of a plan always returns: a plan or an error.
pub validate_plan-returns :
    (plan : SessionPlan) → (r : Result String SessionPlan) × (validate_plan plan ≡ some r)
unfolding validate_plan
validate_plan-returns plan = checked-returns plan plan.steps (dupes_of [] plan.steps)
