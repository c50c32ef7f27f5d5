-- ===== src/Workflow/Dag/Loop.antt =====
-- The loop of Kahn's algorithm: what holds between its rounds, and that it ends.
use mathlib.Core.Option.{get_or}
use mathlib.Core.List.{append-nil, append_assoc}
use botto.Prelude.{
  String, ℕ, zero, suc, ◌+◌, ◌<◌, ◌≤◌, ◌≡◌, refl, Bool, true, false, List, [], ◌∷◌, ◌++◌, contains,
  count, count-append, length, length-append, string_key, arith, some, inl, inr, Option-cases, ◌==◌,
  if◌then◌else◌,
}
use botto.Prelude.Maps.{lookup, insert, lookup-insert}
use botto.Workflow.Dag.{release, drain, decrement}
use botto.Workflow.Dag.Edges.{unmet, successors, unmet-snoc}
use botto.Workflow.Dag.Build.{entry}
use botto.Workflow.Dag.Counting.{length-le_of_count-le, count_of_contains, not-contains_of_count}

-- 1 for a step that is known and has no unmet dependency.
abbrev pub is_free : Bool → ℕ → ℕ
is_free true zero = 1
is_free true (suc n) = 0
is_free false n = 0

-- The map holds the unmet dependencies `deg` of the steps `has`; exactly the free steps stand in
-- the queue or are sorted, each once.
pub record Inv (has : String → Bool) (deg : String → ℕ) (in_degree : List (String × ℕ))
    (queue sorted : List String) : Type 0 where
  pub degrees : (x : String) → lookup x in_degree ≡ entry (has x) (deg x)
  pub placed : (x : String) → count x queue + count x sorted ≡ is_free (has x) (deg x)

module _ (has : String → Bool) (sorted : List String) where
  release-Inv :
      (deps : List String) (deg : String → ℕ) (in_degree : List (String × ℕ)) (queue : List String)
      → Inv has (λ x. deg x + count x deps) in_degree queue sorted
      → let r = release deps in_degree queue in Inv has deg r.0 r.1 sorted
  unfolding release
  release-Inv [] deg in_degree queue h = record {
    degrees = λ x. ground (arith, h.degrees x);
    placed = λ x. ground (arith, h.placed x);
  }
  release-Inv (dep ∷ deps) deg in_degree queue h = elim (Option-cases (lookup dep in_degree)) [
    | inl absent ↦
        rw (absent, release)
          (release-Inv deps deg in_degree queue (record {
            degrees = λ x. ground (arith, h.degrees x, h.degrees dep);
            placed = λ x. ground (arith, h.placed x, h.degrees x, h.degrees dep);
          }))
    | inr (n, found) ↦
        rw (found, release)
          (release-Inv deps deg (insert dep (decrement n) in_degree)
            (if decrement n == 0 then queue ++ dep ∷ [] else queue)
            (record {
              degrees = λ x.
                  ground (
                    arith,
                    h.degrees x,
                    h.degrees dep,
                    lookup-insert dep x (decrement n) in_degree,
                  );
              placed = λ x. ground (
                arith,
                h.placed x,
                h.placed dep,
                h.degrees x,
                h.degrees dep,
                count-append x queue (dep ∷ []),
              );
            }))
  ]

-- Each step of the list comes after all steps that it waits for, `before` included.
abbrev pub IsOrdered : List (String × String) → List String → List String → Type 0
IsOrdered es before [] = Unit
IsOrdered es before (x ∷ xs) = (unmet before es x ≡ 0) × IsOrdered es (before ++ x ∷ []) xs

IsOrdered-snoc :
    (es : List (String × String)) (before xs : List String) (y : String)
    → IsOrdered es before xs
    → unmet (before ++ xs) es y ≡ 0
    → IsOrdered es before (xs ++ y ∷ [])
IsOrdered-snoc es before [] y h free = (rw append-nil at free, tt)
IsOrdered-snoc es before (x ∷ xs) y h free =
    (h.0, IsOrdered-snoc es (before ++ x ∷ []) xs y h.1 (rw append_assoc free))

module _ (nodes : List String) (es : List (String × String))
    (dependents : List (String × List String))
    (targets : (y : String) → get_or (lookup y dependents) [] ≡ successors y es) where
  -- What holds between two rounds.
  pub record Round (in_degree : List (String × ℕ)) (queue sorted : List String) : Type 0 where
    pub inv : Inv (contains nodes) (unmet sorted es) in_degree queue sorted
    pub ordered : IsOrdered es [] sorted

  module _ {in_degree : List (String × ℕ)} {sorted : List String} where
    length-sorted-le :
        {queue : List String} → Round in_degree queue sorted → length sorted ≤ length nodes
    length-sorted-le h =
        length-le_of_count-le sorted nodes
          (λ a. ground (arith, h.inv.placed a, count_of_contains a nodes))

    node_facts :
        (node : String) (queue : List String)
        → Round in_degree (node ∷ queue) sorted
        → (count node sorted ≡ 0) × (unmet sorted es node ≡ 0)
    node_facts node queue h = ground (arith, h.inv.placed node)

    Round-Round :
        (node : String) (queue : List String)
        → Round in_degree (node ∷ queue) sorted
        → let r = release (get_or (lookup node dependents) []) in_degree queue in
          Round r.0 r.1 (sorted ++ node ∷ [])
    Round-Round node queue h =
        let (new, free) = node_facts node queue h in
        let fresh = not-contains_of_count node sorted new in
        record {
          inv = rw targets (
              release-Inv (contains nodes) (sorted ++ node ∷ []) (successors node es)
                (unmet (sorted ++ node ∷ []) es) in_degree queue
                (record {
                  degrees = λ x. rw (← unmet-snoc sorted node es x fresh) (h.inv.degrees x);
                  placed = λ x.
                      rw (← unmet-snoc sorted node es x fresh)
                        (ground (arith, h.inv.placed x, count-append x sorted (node ∷ [])));
                }));
          ordered = IsOrdered-snoc es [] sorted node h.ordered free;
        }

  -- With a round of fuel for each step that is not sorted, and one more, the loop ends.
  pub drain-Round :
      (fuel : ℕ) (in_degree : List (String × ℕ)) (queue sorted : List String)
      → length nodes < fuel + length sorted
      → Round in_degree queue sorted
      → (in_degree' : List (String × ℕ)) × (sorted' : List String) × (drain dependents fuel
            in_degree queue sorted
          ≡ some (in_degree', sorted'))
        × Round in_degree' [] sorted'
  unfolding drain
  drain-Round fuel in_degree [] sorted enough h = (in_degree, sorted, refl, h)
  drain-Round zero in_degree (node ∷ queue) sorted enough h =
      absurd (omega (arith, length-sorted-le h))
  drain-Round (suc fuel) in_degree (node ∷ queue) sorted enough h =
      let r = release (get_or (lookup node dependents) []) in_degree queue in
      drain-Round fuel r.0 r.1 (sorted ++ node ∷ [])
        (omega (arith, length-append sorted (node ∷ []))) (Round-Round node queue h)
