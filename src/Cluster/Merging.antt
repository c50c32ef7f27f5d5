-- ===== src/Cluster/Merging.antt =====
-- The groups that the candidates are merged into (`merge_candidates` of
-- src/services/cluster/detector.rs): their merge requests and signals.
use botto.Prelude.{
  ℕ, suc, ◌+◌, ◌≤◌, ◌<◌, ◌≡◌, refl, Bool, true, false, ◌||◌, List, [], ◌∷◌, ◌++◌, nat_key, contains,
  if◌then◌else◌, any, arith, map, Bool-cases, inl, inr,
}
use botto.Cluster.{
  Floats, ClusterSignal, ClusterCandidate, MergedCandidate, extend, insert_sorted, sort_iids,
  overlaps, absorb, add_candidate, add_candidates, merge_candidates,
}

contains-extend :
    (x : ℕ) (xs set : List ℕ) → contains (extend set xs) x ≡ (contains set x || contains xs x)
unfolding extend
contains-extend x [] set = ground arith
contains-extend x (y ∷ xs) set =
    ground (arith, contains-extend x xs (if contains set y then set else y ∷ set))

contains-insert_sorted :
    (x y : ℕ) (ys : List ℕ) → contains (insert_sorted y ys) x ≡ contains (y ∷ ys) x
unfolding insert_sorted
contains-insert_sorted x y [] = refl
contains-insert_sorted x y (z ∷ ys) = ground (arith, contains-insert_sorted x y ys)

contains-sort_iids : (x : ℕ) (xs : List ℕ) → contains (sort_iids xs) x ≡ contains xs x
unfolding sort_iids
contains-sort_iids x [] = refl
contains-sort_iids x (y ∷ xs) =
    ground (arith, contains-insert_sorted x y (sort_iids xs), contains-sort_iids x xs)

module _ {F : Floats} where
  -- How many groups have the merge request.
  abbrev pub holders : ℕ → List (MergedCandidate F) → ℕ
  holders x [] = 0
  holders x (g ∷ groups) =
      let rest = holders x groups in if contains g.mr_iids x then suc rest else rest

  holders-append :
      (x : ℕ) (gs hs : List (MergedCandidate F))
      → holders x (gs ++ hs) ≡ holders x gs + holders x hs
  holders-append x [] hs = omega arith
  holders-append x (g ∷ gs) hs = ground (arith, holders-append x gs hs)

  shared :
      (x : ℕ) (iids : List ℕ) (g : MergedCandidate F)
      → contains iids x ≡ true
      → contains g.mr_iids x ≡ true
      → overlaps iids g ≡ true
  shared x [] g h k = cc h
  shared x (y ∷ iids) g h k = ground (arith, shared x iids g)

  record Absorbed (x : ℕ) (iids : List ℕ) (groups : List (MergedCandidate F))
      (all new : MergedCandidate F) (rest : List (MergedCandidate F)) : Type 0 where
    le : holders x rest ≤ holders x groups
    kept : contains all.mr_iids x ≡ true → contains new.mr_iids x ≡ true
    out : contains new.mr_iids x ≡ false → holders x groups ≡ holders x rest
    taken :
        contains new.mr_iids x ≡ true
        → contains all.mr_iids x ≡ false
        → holders x rest < holders x groups
    apart : contains iids x ≡ true → holders x rest ≡ 0

  absorb-Absorbed :
      (x : ℕ) (iids : List ℕ) (groups : List (MergedCandidate F)) (all : MergedCandidate F)
      → let r = absorb iids groups all in Absorbed x iids groups all r.0 r.1
  unfolding absorb
  absorb-Absorbed x iids [] all = record {
    le = omega arith;
    kept = λ h. h;
    out = λ h. refl;
    taken = λ h k. cc (h, k);
    apart = λ h. refl;
  }
  absorb-Absorbed x iids (g ∷ groups) all =
      let a = absorb-Absorbed x iids groups all in
      let new = (absorb iids groups all).0 in
      let rest = (absorb iids groups all).1 in
      let e = contains-extend x g.mr_iids new.mr_iids in
      let total : holders x (g ∷ groups)
          ≡ holders x groups + (if contains g.mr_iids x then 1 else 0) =
        ground arith in
      elim (Bool-cases (overlaps iids g)) [
        | inl joins ↦ rw joins (record {
          le = ground (arith, a.le);
          kept = λ h. ground (arith, a.kept h, e);
          out = λ h. ground (arith, a.out, e, h);
          taken = λ h k. ground (arith, a.le, a.out, a.taken, e, h, k);
          apart = a.apart;
        })
        | inr stays ↦ rw stays (record {
          le = ground (arith, a.le);
          kept = a.kept;
          out = λ h. ground (arith, a.out h);
          taken = λ h k. ground (arith, a.taken h k);
          apart = λ h. ground (arith, a.apart h, shared x iids g h, stays);
        })
      ]

  -- The merge request is in one group if it was in one or the candidate has it, else in none.
  holders-add_candidate :
      (x : ℕ) (c : ClusterCandidate F) (groups : List (MergedCandidate F))
      → holders x groups ≤ 1
      → holders x (add_candidate c groups) ≡ (if contains c.mr_iids x then 1 else holders x groups)
  unfolding add_candidate
  holders-add_candidate x c groups one = elim (Bool-cases (any (overlaps c.mr_iids) groups)) [
    | inl some_overlap ↦
        let start : MergedCandidate F = record {
          mr_iids = extend [] c.mr_iids;
          signals = c.signal ∷ [];
          relevance = c.relevance;
          ticket_key = c.ticket_key;
        } in
        let r = absorb c.mr_iids groups start in
        let a = absorb-Absorbed x c.mr_iids groups start in
        let merged : MergedCandidate F = record (r.0) { mr_iids = sort_iids r.0.mr_iids } in
        rw some_overlap (
          ground (
            arith,
            one,
            holders-append x r.1 (merged ∷ []),
            contains-sort_iids x r.0.mr_iids,
            contains-extend x c.mr_iids [],
            a.le,
            a.kept,
            a.out,
            a.taken,
            a.apart,
          ))
    | inr fresh ↦
        let group : MergedCandidate F = record {
          mr_iids = c.mr_iids;
          signals = c.signal ∷ [];
          relevance = c.relevance;
          ticket_key = c.ticket_key;
        } in
        rw fresh (
          ground (arith, one, holders-append x groups (group ∷ []), alone x c.mr_iids groups fresh))
  ]
    where
      alone :
          (x : ℕ) (iids : List ℕ) (groups : List (MergedCandidate F))
          → any (overlaps iids) groups ≡ false
          → contains iids x ≡ true
          → holders x groups ≡ 0
      alone x iids [] e h = refl
      alone x iids (g ∷ groups) e h = ground (arith, alone x iids groups, shared x iids g h, e, h)

  abbrev pub has : ℕ → List (ClusterCandidate F) → Bool
  has x cs = any (λ c. contains c.mr_iids x) cs

  holders-add_candidates :
      (x : ℕ) (cs : List (ClusterCandidate F)) (groups : List (MergedCandidate F))
      → holders x groups ≤ 1
      → holders x (add_candidates cs groups) ≡ (if has x cs then 1 else holders x groups)
  unfolding add_candidates
  holders-add_candidates x [] groups one = refl
  holders-add_candidates x (c ∷ cs) groups one =
      let step = holders-add_candidate x c groups one in
      ground (
        arith,
        step,
        holders-add_candidates x cs (add_candidate c groups) (ground (arith, step, one)),
      )

  -- Of the groups that candidates are merged into, exactly one has a merge request that a candidate
  -- has, and none has any other: the groups share no merge request, and none is lost.
  pub holders-merge_candidates :
      (x : ℕ) (candidates : List (ClusterCandidate F))
      → holders x (merge_candidates candidates) ≡ (if has x candidates then 1 else 0)
  unfolding merge_candidates
  holders-merge_candidates x candidates = holders-add_candidates x candidates [] (omega arith)

  -- How many signals pass a test, in a list, in the groups, and of the candidates.
  abbrev pub count_passing : (ClusterSignal F → Bool) → List (ClusterSignal F) → ℕ
  count_passing p [] = 0
  count_passing p (s ∷ signals) =
      let rest = count_passing p signals in if p s then suc rest else rest

  abbrev pub count_signals : (ClusterSignal F → Bool) → List (MergedCandidate F) → ℕ
  count_signals p [] = 0
  count_signals p (g ∷ groups) = count_passing p g.signals + count_signals p groups

  abbrev pub count_candidates : (ClusterSignal F → Bool) → List (ClusterCandidate F) → ℕ
  count_candidates p cs = count_passing p (map (λ c. c.signal) cs)

  count_passing-append :
      (p : ClusterSignal F → Bool) (xs ys : List (ClusterSignal F))
      → count_passing p (xs ++ ys) ≡ count_passing p xs + count_passing p ys
  count_passing-append p [] ys = omega arith
  count_passing-append p (x ∷ xs) ys = ground (arith, count_passing-append p xs ys)

  count_signals-append :
      (p : ClusterSignal F → Bool) (gs hs : List (MergedCandidate F))
      → count_signals p (gs ++ hs) ≡ count_signals p gs + count_signals p hs
  count_signals-append p [] hs = omega arith
  count_signals-append p (g ∷ gs) hs = omega (arith, count_signals-append p gs hs)

  count_signals-absorb :
      (p : ClusterSignal F → Bool) (iids : List ℕ) (groups : List (MergedCandidate F))
      (all : MergedCandidate F)
      → let r = absorb iids groups all in
        count_passing p r.0.signals + count_signals p r.1
        ≡ count_passing p all.signals + count_signals p groups
  unfolding absorb
  count_signals-absorb p iids [] all = refl
  count_signals-absorb p iids (g ∷ groups) all =
      let r = absorb iids groups all in
      let a = count_signals-absorb p iids groups all in
      elim (Bool-cases (overlaps iids g)) [
        | inl joins ↦ rw joins (omega (arith, a, count_passing-append p r.0.signals g.signals))
        | inr stays ↦ rw stays (omega (arith, a))
      ]

  count_signals-add_candidate :
      (p : ClusterSignal F → Bool) (c : ClusterCandidate F) (groups : List (MergedCandidate F))
      → count_signals p (add_candidate c groups)
        ≡ (if p c.signal then 1 else 0) + count_signals p groups
  unfolding add_candidate
  count_signals-add_candidate p c groups = elim (Bool-cases (any (overlaps c.mr_iids) groups)) [
    | inl some_overlap ↦
        let start : MergedCandidate F = record {
          mr_iids = extend [] c.mr_iids;
          signals = c.signal ∷ [];
          relevance = c.relevance;
          ticket_key = c.ticket_key;
        } in
        let r = absorb c.mr_iids groups start in
        let merged : MergedCandidate F = record (r.0) { mr_iids = sort_iids r.0.mr_iids } in
        rw some_overlap (
          omega (
            arith,
            count_signals-append p r.1 (merged ∷ []),
            count_signals-absorb p c.mr_iids groups start,
          ))
    | inr fresh ↦ rw fresh (omega (arith, count_signals-append p groups _))
  ]

  -- Merging loses no signal, repeats none and changes none: whatever test a signal is put to, as many
  -- signals of the groups pass it as signals of the candidates do.
  pub count_signals-merge_candidates :
      (p : ClusterSignal F → Bool) (candidates : List (ClusterCandidate F))
      → count_signals p (merge_candidates candidates) ≡ count_candidates p candidates
  unfolding merge_candidates add_candidates
  count_signals-merge_candidates p candidates = omega (arith, from candidates [])
    where
      from :
          (cs : List (ClusterCandidate F)) (groups : List (MergedCandidate F))
          → count_signals p (add_candidates cs groups)
            ≡ count_candidates p cs + count_signals p groups
      from [] groups = omega arith
      from (c ∷ cs) groups =
          ground (arith, from cs (add_candidate c groups), count_signals-add_candidate p c groups)
