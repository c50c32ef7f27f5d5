-- ===== src/Workflow/Planner/Acyclic.antt =====
-- The search for cycles in a plan (src/services/workflow/planner.rs, `has_cycle`).
use botto.Prelude.{
  ℕ, zero, suc, ◌+◌, ◌<◌, ◌≤◌, Bool, true, false, List, [], ◌∷◌, Option, none, some, ◌≡◌, ◌≢◌, refl,
  subst, All, All-map, nat_key, ite, ◌⊎◌, inl, inr, arith,
}
use botto.Prelude.Maps.{lookup, insert, lookup-insert}
use botto.Workflow.Planner.{
  Mark, Marks, mark, Search, on_search, by_mark, visit_all, dfs, neighbours, search_from, unvisited,
  in_path, explored,
}
use mathlib.Core.Logic.{if_pos, if_neg}

pub mark-insert :
    (i j : ℕ) (m : Mark) (st : Marks) → mark (insert i m st) j ≡ ite (nat_key.dec i j) m (mark st j)
unfolding mark
mark-insert i j m st = ground (arith, lookup-insert i j m st)

mark_empty : (i : ℕ) → mark [] i ≡ unvisited
unfolding mark lookup
mark_empty i = refl

Mark-cases : (m : Mark) → (m ≡ explored) ⊎ (m ≢ explored)
Mark-cases unvisited = inr (λ e. cc e)
Mark-cases in_path = inr (λ e. cc e)
Mark-cases explored = inl refl

module _ (adj : List (List ℕ)) where
  -- A node that is explored comes after its neighbours, which are explored too.
  abbrev IsExplored : Marks → (ℕ → ℕ) → ℕ → Type 0
  IsExplored st rank i = All (λ n. (mark st n ≡ explored) × (rank n < rank i)) (neighbours adj i)

  abbrev pub Ranked : Marks → Type 0
  Ranked st = (rank : ℕ → ℕ) × ((i : ℕ) → mark st i ≡ explored → IsExplored st rank i)

  abbrev Grown : Marks → Marks → Type 0
  Grown st st' = (i : ℕ) → mark st i ≡ explored → mark st' i ≡ explored

  -- No more nodes are on the path.
  abbrev Back : Marks → Marks → Type 0
  Back st st' = (i : ℕ) → mark st' i ≡ in_path → mark st i ≡ in_path

  -- What a search without a cycle leaves.
  abbrev Sound : Search → Type 0
  Sound go =
      (node : ℕ) (st st' : Marks)
      → mark st node ≡ unvisited
      → Ranked st
      → go node st ≡ some (false, st')
      → Ranked st' × Grown st st' × Back st st' × (mark st' node ≡ explored)

  on_search-some :
      (r : Option (Bool × Marks)) (k : Marks → Option (Bool × Marks)) {st' : Marks}
      → on_search r k ≡ some (false, st')
      → (st : Marks) × (r ≡ some (false, st)) × (k st ≡ some (false, st'))
  unfolding on_search
  on_search-some none k e = absurd (cc e)
  on_search-some (some (true, st)) k e = absurd (ground (arith, e))
  on_search-some (some (false, st)) k e = (st, refl, e)

  -- What the rest of a loop leaves.
  abbrev Left : Marks → Marks → List ℕ → Type 0
  Left st st' ns = Ranked st' × Grown st st' × Back st st' × All (λ n. mark st' n ≡ explored) ns

  visit_one-Sound :
      (go : Search)
      → Sound go
      → (n : ℕ) (ns : List ℕ) (st st' : Marks) (k : Marks → Option (Bool × Marks))
      → ((v : Marks) → Ranked v → k v ≡ some (false, st') → Left v st' ns)
      → (m : Mark) → mark st n ≡ m
      → Ranked st
      → by_mark m (on_search (go n st) k) (some (true, st)) (k st) ≡ some (false, st')
      → Left st st' (n ∷ ns)
  unfolding by_mark
  visit_one-Sound go sound n ns st st' k rest unvisited at_n ranked e =
      let (v, first, last) = on_search-some (go n st) k e in
      let (ranked', grown, back, there) = sound n st v at_n ranked first in
      let (ranked'', grown', back', all_) = rest v ranked' last in
      (ranked'', (λ i h. grown' i (grown i h)), (λ i h. back i (back' i h)), (grown' n there, all_))
  visit_one-Sound go sound n ns st st' k rest in_path at_n ranked e = absurd (ground (arith, e))
  visit_one-Sound go sound n ns st st' k rest explored at_n ranked e =
      let (ranked', grown, back, all_) = rest st ranked e in
      (ranked', grown, back, (grown n at_n, all_))

  visit_all-Sound :
      (go : Search)
      → Sound go
      → (ns : List ℕ) (st st' : Marks) → Ranked st
      → visit_all go ns st ≡ some (false, st')
      → Left st st' ns
  unfolding visit_all
  visit_all-Sound go sound [] st st' ranked e =
      let same : st ≡ st' = ground (arith, e) in
      (
        subst Ranked same ranked,
        subst (Grown st) same (λ i h. h),
        subst (Back st) same (λ i h. h),
        tt,
      )
  visit_all-Sound go sound (n ∷ ns) st st' ranked e =
      visit_one-Sound go sound n ns st st' (visit_all go ns)
        (λ v. visit_all-Sound go sound ns v st') (mark st n) refl ranked e

  -- A node that is not explored changes nothing when the search enters it.
  enter-Ranked :
      (node : ℕ) (st : Marks)
      → mark st node ≡ unvisited
      → Ranked st
      → Ranked (insert node in_path st) × Grown st (insert node in_path st)
  enter-Ranked node st fresh (rank, ranked) = ((rank, ranked'), grown)
    where
      grown : Grown st (insert node in_path st)
      grown i h = elim (nat_key.dec node i) [
        | yes same ↦ absurd (cc (rw (← same) at h, fresh))
        | no other ↦ rw (mark-insert node i in_path st, if_neg _ other) h
      ]

      before : (i : ℕ) → mark (insert node in_path st) i ≡ explored → mark st i ≡ explored
      before i h = elim (nat_key.dec node i) [
        | yes same ↦ absurd (cc (rw (mark-insert node i in_path st, if_pos _ same) at h))
        | no other ↦ rw (mark-insert node i in_path st, if_neg _ other) at h
      ]

      ranked' :
          (i : ℕ)
          → mark (insert node in_path st) i ≡ explored
          → IsExplored (insert node in_path st) rank i
      ranked' i h =
          All-map _ _ (λ n (there, less). (grown n there, less)) (neighbours adj i)
            (ranked i (before i h))

  total : (ℕ → ℕ) → List ℕ → ℕ
  total rank [] = zero
  total rank (n ∷ ns) = rank n + total rank ns

  -- The ranks with one for a node whose neighbours are all explored.
  ranked_with : (ℕ → ℕ) → ℕ → ℕ → ℕ
  ranked_with rank node i =
      ite (nat_key.dec node i) (suc (total rank (neighbours adj node))) (rank i)

  ranked_with_self :
      (rank : ℕ → ℕ) (node : ℕ)
      → ranked_with rank node node ≡ suc (total rank (neighbours adj node))
  unfolding ranked_with
  ranked_with_self rank node = rw (if_pos (nat_key.dec node node) refl) refl

  below_total :
      (rank : ℕ → ℕ) (node bound : ℕ) (st : Marks) (ns : List ℕ)
      → mark st node ≢ explored
      → total rank ns ≤ bound
      → All (λ n. mark st n ≡ explored) ns
      → All
          (λ n.
            (mark (insert node explored st) n ≡ explored)
            × (ite (nat_key.dec node n) (suc bound) (rank n) < suc bound))
          ns
  unfolding total
  below_total rank node bound st [] fresh h all_ = tt
  below_total rank node bound st (n ∷ ns) fresh h (there, all_) = elim (nat_key.dec node n) [
    | yes same ↦ absurd (fresh (rw (same) there))
    | no other ↦ (
      (
        rw (mark-insert node n explored st, if_neg _ other) there,
        rw (if_neg _ other) (omega (arith, h)),
      ),
      below_total rank node bound st ns fresh (omega (arith, h)) all_,
    )
  ]

  leave-Grown : (node : ℕ) (st : Marks) → Grown st (insert node explored st)
  leave-Grown node st i h = elim (nat_key.dec node i) [
    | yes same ↦ rw (mark-insert node i explored st, if_pos _ same) refl
    | no other ↦ rw (mark-insert node i explored st, if_neg _ other) h
  ]

  others_kept :
      (rank : ℕ → ℕ) (node rank_i value : ℕ) (st : Marks) (ns : List ℕ)
      → mark st node ≢ explored
      → All (λ n. (mark st n ≡ explored) × (rank n < rank_i)) ns
      → All
          (λ n.
            (mark (insert node explored st) n ≡ explored)
            × (ite (nat_key.dec node n) value (rank n) < rank_i))
          ns
  others_kept rank node rank_i value st ns fresh =
      All-map _ _
        (λ n (there, less). (
          leave-Grown node st n there,
          elim (nat_key.dec node n) [
            | yes same ↦ absurd (fresh (rw (same) there))
            | no other ↦ rw (if_neg (nat_key.dec node n) other) less
          ],
        ))
        ns

  leave-Ranked :
      (node : ℕ) (st : Marks)
      → Ranked st
      → All (λ n. mark st n ≡ explored) (neighbours adj node)
      → Ranked (insert node explored st)
  unfolding ranked_with
  leave-Ranked node st (rank, ranked) all_ = elim (Mark-cases (mark st node)) [
    | inl already ↦ (
      rank,
      λ i h.
          All-map _ _ (λ n (there, less). (leave-Grown node st n there, less)) (neighbours adj i)
            (ranked i (elim (nat_key.dec node i) [
              | yes same ↦ rw (← same) already
              | no other ↦ rw (mark-insert node i explored st, if_neg _ other) at h
            ])),
    )
    | inr fresh ↦ (
      ranked_with rank node,
      λ i h. elim (nat_key.dec node i) [
        | yes same ↦ subst (IsExplored (insert node explored st) (ranked_with rank node)) same (
            rw (ranked_with_self rank node) (
              below_total rank node (total rank (neighbours adj node)) st (neighbours adj node)
                fresh (omega arith) all_))
        | no other ↦ rw (if_neg (nat_key.dec node i) other) (
            others_kept rank node (rank i) (suc (total rank (neighbours adj node))) st
              (neighbours adj i) fresh
              (ranked i (rw (mark-insert node i explored st, if_neg _ other) at h)))
      ],
    )
  ]

  leave-Back :
      (node : ℕ) (st v : Marks)
      → mark st node ≡ unvisited
      → Back (insert node in_path st) v
      → Back st (insert node explored v)
  leave-Back node st v fresh back i h = elim (nat_key.dec node i) [
    | yes same ↦ absurd (cc (rw (mark-insert node i explored v, if_pos _ same) at h))
    | no other ↦
        rw (mark-insert node i in_path st, if_neg _ other) at
          (back i (rw (mark-insert node i explored v, if_neg _ other) at h))
  ]

  dfs-Sound : (fuel : ℕ) → Sound (dfs fuel adj)
  unfolding dfs
  dfs-Sound zero node st st' fresh ranked e = absurd (cc e)
  dfs-Sound (suc fuel) node st st' fresh ranked e =
      let (entered, grown) = enter-Ranked node st fresh ranked in
      let (v, first, last) = on_search-some _ _ e in
      let (ranked', grown', back, all_) =
        visit_all-Sound (dfs fuel adj) (dfs-Sound fuel) _ _ v entered first in
      let same : insert node explored v ≡ st' = ground (arith, last) in
      (
        subst Ranked same (leave-Ranked node v ranked' all_),
        subst (Grown st) same (λ i h. leave-Grown node v i (grown' i (grown i h))),
        subst (Back st) same (leave-Back node st v fresh back),
        subst (λ u. mark u node ≡ explored) same
            (rw (mark-insert node node explored v, if_pos (nat_key.dec node node) refl) refl),
      )

  search_one-Sound :
      (go : Search)
      → Sound go
      → (n : ℕ) (ns : List ℕ) (st st' : Marks) (k : Marks → Option (Bool × Marks))
      → ((v : Marks)
          → Ranked v
          → ((i : ℕ) → mark v i ≢ in_path)
          → k v ≡ some (false, st')
          → Left v st' ns)
      → (m : Mark) → mark st n ≡ m
      → ((i : ℕ) → mark st i ≢ in_path)
      → Ranked st
      → by_mark m (on_search (go n st) k) (k st) (k st) ≡ some (false, st')
      → Left st st' (n ∷ ns)
  unfolding by_mark
  search_one-Sound go sound n ns st st' k rest unvisited at_n clear ranked e =
      let (v, first, last) = on_search-some (go n st) k e in
      let (ranked', grown, back, there) = sound n st v at_n ranked first in
      let (ranked'', grown', back', all_) = rest v ranked' (λ i h. clear i (back i h)) last in
      (ranked'', (λ i h. grown' i (grown i h)), (λ i h. back i (back' i h)), (grown' n there, all_))
  search_one-Sound go sound n ns st st' k rest in_path at_n clear ranked e = absurd (clear n at_n)
  search_one-Sound go sound n ns st st' k rest explored at_n clear ranked e =
      let (ranked', grown, back, all_) = rest st ranked clear e in
      (ranked', grown, back, (grown n at_n, all_))

  search_from-Sound :
      (go : Search)
      → Sound go
      → (ns : List ℕ) (st st' : Marks) → Ranked st
      → ((i : ℕ) → mark st i ≢ in_path)
      → search_from go ns st ≡ some (false, st')
      → Left st st' ns
  unfolding search_from
  search_from-Sound go sound [] st st' ranked clear e =
      let same : st ≡ st' = ground (arith, e) in
      (
        subst Ranked same ranked,
        subst (Grown st) same (λ i h. h),
        subst (Back st) same (λ i h. h),
        tt,
      )
  search_from-Sound go sound (n ∷ ns) st st' ranked clear e =
      search_one-Sound go sound n ns st st' (search_from go ns)
        (λ v. search_from-Sound go sound ns v st') (mark st n) refl clear ranked e

  -- A search over nodes that meets no cycle has ranked them: each has a higher rank than its
  -- neighbours.
  pub search_from-ranks :
      (fuel : ℕ) (ns : List ℕ) (st' : Marks)
      → search_from (dfs fuel adj) ns [] ≡ some (false, st')
      → (rank : ℕ → ℕ) × All (λ i. All (λ n. rank n < rank i) (neighbours adj i)) ns
  search_from-ranks fuel ns st' e =
      let ((rank, ranked), grown, back, all_) =
        search_from-Sound (dfs fuel adj) (dfs-Sound fuel) ns [] st'
          ((λ _. zero), λ i h. absurd (cc (mark_empty i, h))) (λ i h. cc (mark_empty i, h)) e in
      (
        rank,
        All-map _ _ (λ i h. All-map _ _ (λ n (there, less). less) (neighbours adj i) (ranked i h))
            ns all_,
      )
