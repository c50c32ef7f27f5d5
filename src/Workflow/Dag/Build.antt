-- ===== src/Workflow/Dag/Build.antt =====
-- What the two maps of the dependency graph hold once they are built.
use mathlib.Core.Option.{get_or}
use mathlib.Core.List.{append-nil, append_assoc}
use botto.Prelude.{
  String, ℕ, suc, ◌+◌, ◌≡◌, refl, Bool, true, false, ◌||◌, List, [], ◌∷◌, ◌++◌, contains, count,
  string_key, String_discrete, ite, arith, Option, none, some, ◌∙◌, sym, ap, if◌then◌else◌,
}
use botto.Prelude.Maps.{lookup, lookup-insert, IsMap, insert-IsMap}
use botto.Workflow.Types.{Host, WorkflowStep}
use botto.Workflow.Dag.{
  Graph, add_dependency, add_dependencies, add_node, build, graph, ids, with_degree,
}
use botto.Workflow.Dag.Edges.{edges, edges_into, successors, successors-append}

-- The entry of a map of counts: `has` says which keys it has, `n` their values.
abbrev pub entry : Bool → ℕ → Option ℕ
entry true n = some n
entry false n = none

abbrev pub into : String → List (String × String) → ℕ
into x [] = 0
into x ((dep, id) ∷ es) = let rest = into x es in ite (String_discrete id x) (suc rest) rest

-- A graph that holds the steps of `has` with in-degrees `deg`, and the dependents `next`.
record Holds (g : Graph) (has : String → Bool) (deg : String → ℕ) (next : String → List String)
    : Type 0 where
  degrees : (x : String) → lookup x g.in_degree ≡ entry (has x) (deg x)
  targets : (y : String) → get_or (lookup y g.dependents) [] ≡ next y

module _ {has : String → Bool} {deg : String → ℕ} {next : String → List String} where
  add_node-Holds :
      (id : String) (g : Graph)
      → ((x : String) → has x ≡ false → deg x ≡ 0)
      → Holds g has deg next
      → Holds (add_node id g) (λ x. contains (id ∷ []) x || has x) deg next
  unfolding add_node
  add_node-Holds id g absent h = record {
    degrees = λ x. ground (
      arith,
      lookup-insert id x (get_or (lookup id g.in_degree) 0) g.in_degree,
      h.degrees x,
      h.degrees id,
      absent id,
    );
    targets = h.targets;
  }

  add_dependency-Holds :
      (id dep : String) (g : Graph)
      → has id ≡ true
      → Holds g has deg next
      → Holds
          (add_dependency id dep g)
          has
          (λ x. deg x + into x ((dep, id) ∷ []))
          (λ y. next y ++ successors y ((dep, id) ∷ []))
  unfolding add_dependency
  add_dependency-Holds id dep g known h = record {
    degrees = λ x. ground (
      arith,
      lookup-insert id x (get_or (lookup id g.in_degree) 0 + 1) g.in_degree,
      h.degrees x,
      h.degrees id,
    );
    targets = λ y. ground (
      arith,
      lookup-insert dep y (get_or (lookup dep g.dependents) [] ++ id ∷ []) g.dependents,
      h.targets y,
      h.targets dep,
      append-nil (next y),
    );
  }

into-append :
    (x : String) (es fs : List (String × String)) → into x (es ++ fs) ≡ into x es + into x fs
into-append x [] fs = omega arith
into-append x ((dep, id) ∷ es) fs = ground (arith, into-append x es fs)

into-edges_into :
    (x id : String) (deps : List String)
    → contains (id ∷ []) x ≡ false
    → into x (edges_into id deps) ≡ 0
into-edges_into x id [] h = refl
into-edges_into x id (dep ∷ deps) h = ground (arith, into-edges_into x id deps)

Holds-congr :
    {g : Graph} {has has' : String → Bool} {deg deg' : String → ℕ}
    {next next' : String → List String}
    → Holds g has deg next
    → ((x : String) → has x ≡ has' x)
    → ((x : String) → deg x ≡ deg' x)
    → ((x : String) → next x ≡ next' x)
    → Holds g has' deg' next'
Holds-congr h same same_deg same_next = record {
  degrees = λ x. rw (← same x, ← same_deg x) (h.degrees x);
  targets = λ y. h.targets y ∙ same_next y;
}

add_dependencies-Holds :
    (id : String) (deps : List String) (g : Graph) (has : String → Bool) (deg : String → ℕ)
    (next : String → List String)
    → has id ≡ true
    → Holds g has deg next
    → Holds
        (add_dependencies id deps g)
        has
        (λ x. deg x + into x (edges_into id deps))
        (λ y. next y ++ successors y (edges_into id deps))
unfolding add_dependencies
add_dependencies-Holds id [] g has deg next known h =
    Holds-congr h (λ x. refl) (λ x. omega arith) (λ y. sym (append-nil (next y)))
add_dependencies-Holds id (dep ∷ deps) g has deg next known h =
    Holds-congr
      (add_dependencies-Holds id deps (add_dependency id dep g) has _ _ known
        (add_dependency-Holds id dep g known h))
      (λ x. refl) (λ x. ground arith)
      (λ y.
        append_assoc (next y) (successors y ((dep, id) ∷ [])) (successors y (edges_into id deps))
        ∙ ap (◌++◌ (next y)) (ground arith))

build-Holds :
    {H : Host} (steps : List (WorkflowStep H)) (g : Graph) (has : String → Bool) (deg : String → ℕ)
    (next : String → List String)
    → ((x : String) → has x ≡ false → deg x ≡ 0)
    → Holds g has deg next
    → Holds
        (build steps g)
        (λ x. has x || contains (ids steps) x)
        (λ x. deg x + into x (edges steps))
        (λ y. next y ++ successors y (edges steps))
unfolding build
build-Holds [] g has deg next absent h =
    Holds-congr h (λ x. ground arith) (λ x. omega arith) (λ y. sym (append-nil (next y)))
build-Holds (step ∷ steps) g has deg next absent h =
    let into_step = λ (x : String). into x (edges_into step.id step.depends_on) in
    let added =
      add_dependencies-Holds step.id step.depends_on (add_node step.id g) _ deg next (ground arith)
        (add_node-Holds step.id g absent h) in
    Holds-congr
      (build-Holds steps (add_dependencies step.id step.depends_on (add_node step.id g)) _ _ _
        (λ x e. ground (arith, absent x, into-edges_into x step.id step.depends_on)) added)
      (λ x. ground arith)
      (λ x. omega (arith, into-append x (edges_into step.id step.depends_on) (edges steps)))
      (λ y.
        append_assoc (next y) (successors y (edges_into step.id step.depends_on))
          (successors y (edges steps))
        ∙ ap (◌++◌ (next y))
            (sym (successors-append y (edges_into step.id step.depends_on) (edges steps))))

module _ {H : Host} (steps : List (WorkflowStep H)) where
  graph-Holds :
      Holds
        (graph steps)
        (contains (ids steps))
        (λ x. into x (edges steps))
        (λ y. successors y (edges steps))
  graph-Holds =
      Holds-congr
        (build-Holds steps (record { in_degree = []; dependents = [] }) (λ x. false) (λ x. 0)
          (λ y. []) (λ x e. refl)
          (record { degrees = λ x. unfold lookup in refl; targets = λ y. unfold lookup in refl }))
        (λ x. refl) (λ x. omega arith) (λ y. refl)

  pub lookup-in_degree :
      (x : String)
      → lookup x (graph steps).in_degree ≡ entry (contains (ids steps) x) (into x (edges steps))
  lookup-in_degree = graph-Holds.degrees

  pub dependents-graph :
      (y : String) → get_or (lookup y (graph steps).dependents) [] ≡ successors y (edges steps)
  dependents-graph = graph-Holds.targets

add_dependencies-IsMap :
    (id : String) (deps : List String) (g : Graph)
    → IsMap g.in_degree
    → IsMap (add_dependencies id deps g).in_degree
unfolding add_dependencies add_dependency
add_dependencies-IsMap id [] g h = h
add_dependencies-IsMap id (dep ∷ deps) g h =
    add_dependencies-IsMap id deps (add_dependency id dep g) (insert-IsMap id _ g.in_degree h)

build-IsMap :
    {H : Host} (steps : List (WorkflowStep H)) (g : Graph)
    → IsMap g.in_degree
    → IsMap (build steps g).in_degree
unfolding build add_node
build-IsMap [] g h = h
build-IsMap (step ∷ steps) g h = build-IsMap steps _ (
    add_dependencies-IsMap step.id step.depends_on (add_node step.id g)
      (insert-IsMap step.id _ g.in_degree h))

-- Whether the test holds of an entry.
abbrev pub passes : (ℕ → Bool) → Option ℕ → ℕ
passes test none = 0
passes test (some n) = if test n then 1 else 0

-- In a map each id with a passing in-degree is found once.
pub count-with_degree :
    (test : ℕ → Bool) (x : String) (m : List (String × ℕ))
    → IsMap m
    → count x (with_degree test m) ≡ passes test (lookup x m)
unfolding with_degree lookup
count-with_degree test x [] h = refl
count-with_degree test x ((id, deg) ∷ m) h = ground (arith, count-with_degree test x m h.1, h.0)

pub graph-IsMap : {H : Host} (steps : List (WorkflowStep H)) → IsMap (graph steps).in_degree
graph-IsMap steps = build-IsMap steps (record { in_degree = []; dependents = [] }) tt
