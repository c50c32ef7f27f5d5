-- ===== src/Workflow/Dag/Order.antt =====
-- The order that the validation of a dependency graph computes, and what it means for one to be a
-- schedule.
use botto.Prelude.{
  String, ℕ, zero, suc, ◌<◌, ◌≤◌, ◌≡◌, refl, true, List, [], ◌∷◌, ◌++◌, contains, count, length,
  length-map, string_key, arith, some, ◌∙◌, sym, ap, ◌==◌, All, Result, ok, subst, All-map,
}
use botto.Workflow.Types.{Host, WorkflowStep}
use botto.Workflow.Dag.{HashOrder, DagError, graph, conclude, sort_dag, ids, with_degree}
use botto.Workflow.Dag.Edges.{edges, edges_into, unmet, unmet-append}
use botto.Workflow.Dag.Build.{
  into, entry, lookup-in_degree, dependents-graph, graph-IsMap, count-with_degree,
}
use botto.Workflow.Dag.Loop.{Inv, IsOrdered, Round, drain-Round}
use botto.Workflow.Dag.Counting.{
  length-le_of_count-le, count-eq_of_length-eq, count_of_contains, contains_of_count,
}

-- With nothing done every edge is unmet.
unmet-into : (es : List (String × String)) (x : String) → unmet [] es x ≡ into x es
unmet-into [] x = refl
unmet-into ((dep, id) ∷ es) x = ground (arith, unmet-into es x)

module _ {H : Host} (hash : HashOrder) (steps : List (WorkflowStep H)) where
  start : List String
  start = hash.order (with_degree (λ deg. deg == 0) (graph steps).in_degree)

  start-Round :
      Round
        (ids steps)
        (edges steps)
        (graph steps).dependents
        (dependents-graph steps)
        (graph steps).in_degree
        start
        []
  unfolding start
  start-Round = record {
    inv = record {
      degrees = λ x.
          lookup-in_degree steps x
          ∙ ap (entry (contains (ids steps) x)) (sym (unmet-into (edges steps) x));
      placed = λ x. ground (
        arith,
        hash.count-order x (with_degree (λ deg. deg == 0) (graph steps).in_degree),
        count-with_degree (λ deg. deg == 0) x (graph steps).in_degree (graph-IsMap steps),
        lookup-in_degree steps x,
        unmet-into (edges steps) x,
      );
    };
    ordered = tt;
  }

  -- What the loop leaves.
  pub record Sorted : Type 0 where
    pub in_degree : List (String × ℕ)
    pub sorted : List String
    pub sort : sort_dag hash steps ≡ some (conclude hash steps in_degree sorted)
    pub inv : Inv (contains (ids steps)) (unmet sorted (edges steps)) in_degree [] sorted
    pub ordered : IsOrdered (edges steps) [] sorted

  pub run : Sorted
  unfolding sort_dag start
  run =
      let (in_degree, sorted, ends, round) =
        drain-Round (ids steps) (edges steps) (graph steps).dependents (dependents-graph steps)
          (suc (length steps)) (graph steps).in_degree start []
          (omega (arith, length-map steps (λ s. s.id))) start-Round in
      record {
        in_degree = in_degree;
        sorted = sorted;
        sort = rw (ends, sort_dag);
        inv = round.inv;
        ordered = round.ordered;
      }

-- All dependencies of the steps named `id` are in `done`.
abbrev pub DepsIn : {H : Host} → List String → String → List (WorkflowStep H) → Type 0
DepsIn done id steps =
    All (λ s. s.id ≡ id → All (λ dep. contains done dep ≡ true) s.depends_on) steps

-- In the order each id comes after all dependencies of the steps that have it.
abbrev pub RunsAfterDeps : {H : Host} → List (WorkflowStep H) → List String → List String → Type 0
RunsAfterDeps steps done [] = Unit
RunsAfterDeps steps done (x ∷ xs) = DepsIn done x steps × RunsAfterDeps steps (done ++ x ∷ []) xs

deps_done :
    (done : List String) (id : String) (deps : List String)
    → unmet done (edges_into id deps) id ≡ 0
    → All (λ dep. contains done dep ≡ true) deps
deps_done done id [] h = tt
deps_done done id (dep ∷ deps) h = (ground arith, deps_done done id deps (ground arith))

DepsIn-edges :
    {H : Host} (done : List String) (x : String) (steps : List (WorkflowStep H))
    → unmet done (edges steps) x ≡ 0
    → DepsIn done x steps
DepsIn-edges done x [] h = tt
DepsIn-edges done x (s ∷ steps) h =
    let split = unmet-append done (edges_into s.id s.depends_on) (edges steps) x in
    (
      λ e.
          deps_done done s.id s.depends_on
            (subst (λ y. unmet done (edges_into s.id s.depends_on) y ≡ 0) (sym e) (omega arith)),
      DepsIn-edges done x steps (omega arith),
    )

IsOrdered-RunsAfterDeps :
    {H : Host} (steps : List (WorkflowStep H)) (done xs : List String)
    → IsOrdered (edges steps) done xs
    → RunsAfterDeps steps done xs
IsOrdered-RunsAfterDeps steps done [] h = tt
IsOrdered-RunsAfterDeps steps done (x ∷ xs) h =
    (DepsIn-edges done x steps h.0, IsOrdered-RunsAfterDeps steps (done ++ x ∷ []) xs h.1)

module _ {H : Host} (steps : List (WorkflowStep H)) where
  -- An accepted list of steps.
  pub record IsSchedule (order : List String) : Type 0 where
    pub each_once : (x : String) → count x order ≡ count x (ids steps)
    pub distinct : (x : String) → count x (ids steps) ≤ 1
    pub after_deps : RunsAfterDeps steps [] order

  -- Every dependency of a step is a step, and has a lower rank.
  abbrev pub IsRanked : (String → ℕ) → Type 0
  IsRanked rank =
      All
        (λ s. All (λ dep. (contains (ids steps) dep ≡ true) × (rank dep < rank s.id)) s.depends_on)
        steps

module _ {H : Host} (hash : HashOrder) (steps : List (WorkflowStep H)) where
  count-sorted-le : (x : String) → count x (run hash steps).sorted ≤ count x (ids steps)
  count-sorted-le x = ground (arith, (run hash steps).inv.placed x, count_of_contains x (ids steps))

  conclude_ok :
      (in_degree : List (String × ℕ)) (sorted : List String) {order : List String}
      → conclude hash steps in_degree sorted ≡ ok order
      → (order ≡ sorted) × (length sorted ≡ length steps)
  unfolding conclude
  conclude_ok in_degree sorted e = ground arith

  concluded :
      {r : Result DagError (List String)}
      → sort_dag hash steps ≡ some r
      → conclude hash steps (run hash steps).in_degree (run hash steps).sorted ≡ r
  concluded e = cc ((run hash steps).sort)

  pub sort_dag-IsSchedule :
      {order : List String} → sort_dag hash steps ≡ some (ok order) → IsSchedule steps order
  sort_dag-IsSchedule {order} e =
      let r = run hash steps in
      let (same, full) = conclude_ok r.in_degree r.sorted (concluded e) in
      let equal =
        count-eq_of_length-eq r.sorted (ids steps) count-sorted-le
          (omega (arith, length-map steps (λ s. s.id))) in
      record {
        each_once = λ x. rw same (equal x);
        distinct = λ x. ground (arith, equal x, r.inv.placed x);
        after_deps = rw same (IsOrdered-RunsAfterDeps steps [] r.sorted r.ordered);
      }

unmet_of_DepsIn :
    {H : Host} (done : List String) (x : String) (steps : List (WorkflowStep H))
    → DepsIn done x steps
    → unmet done (edges steps) x ≡ 0
unmet_of_DepsIn done x [] h = refl
unmet_of_DepsIn done x (s ∷ steps) h = omega (
  arith,
  unmet-append done (edges_into s.id s.depends_on) (edges steps) x,
  into_step s.depends_on h.0,
  unmet_of_DepsIn done x steps h.1,
)
  where
    into_step :
        (deps : List String)
        → (s.id ≡ x → All (λ dep. contains done dep ≡ true) deps)
        → unmet done (edges_into s.id deps) x ≡ 0
    into_step [] g = refl
    into_step (dep ∷ deps) g =
        ground (arith, into_step deps (λ e. (g e).1), λ (e : s.id ≡ x). (g e).0)

module _ {H : Host} (hash : HashOrder) (steps : List (WorkflowStep H)) (rank : String → ℕ)
    (ranked : IsRanked steps rank) where
  all_free : (n : ℕ) (x : String) → rank x < n → unmet (run hash steps).sorted (edges steps) x ≡ 0
  all_free zero x h = absurd (omega arith)
  all_free (suc n) x h = unmet_of_DepsIn (run hash steps).sorted x steps (
      All-map _ _
        (λ s deps e.
          All-map _ _
            (λ dep (known, below). contains_of_count dep _ (
              ground (
                arith,
                (run hash steps).inv.placed dep,
                known,
                all_free n dep (omega (arith, below, ap rank e)),
              )))
            s.depends_on deps)
        steps ranked)

  pub run_ok :
      ((x : String) → count x (ids steps) ≤ 1) → length (run hash steps).sorted ≡ length steps
  run_ok distinct =
      let r = run hash steps in
      omega (
        arith,
        length-map steps (λ s. s.id),
        length-le_of_count-le r.sorted (ids steps) (count-sorted-le hash steps),
        length-le_of_count-le (ids steps) r.sorted (λ x. ground (
          arith,
          distinct x,
          r.inv.placed x,
          all_free (suc (rank x)) x (omega arith),
          contains_of_count x (ids steps),
        )),
      )
