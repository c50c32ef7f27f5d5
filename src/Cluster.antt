-- ===== src/Cluster.antt =====
-- Clusters of related merge requests: the merging of the strategies' candidates
-- (`merge_candidates` of src/services/cluster/detector.rs, src/services/cluster/strategies/mod.rs),
-- and the overlap of hunks (src/types/cluster.rs).
pub mod Merging
pub mod Hunks
pub mod Removal
mod Tests
use botto.Prelude.{
  String, ℕ, ◌+◌, ◌≡◌, Bool, true, false, not, ◌&&◌, ◌||◌, List, [], ◌∷◌, ◌++◌, Option, none, some,
  nat_key, String_discrete, contains, if◌then◌else◌, ite, any, ltb, leb, ◌==◌, ◌%◌, ◌^◌,
}

-- `f64` with its comparison `>`.
pub record Floats : Type 1 where
  pub Float : Type 0
  pub gt : Float → Float → Bool

pub data ClusterSignal (F : Floats) : Type 0 where
  shared_ticket : (ticket_key : String) → ClusterSignal F
  file_overlap : (jaccard : F.Float) (shared_files : List String) → ClusterSignal F

pub record ClusterCandidate (F : Floats) : Type 0 where
  pub mr_iids : List ℕ
  pub signal : ClusterSignal F
  pub relevance : F.Float
  pub ticket_key : Option String

pub record MergedCandidate (F : Floats) : Type 0 where
  pub mr_iids : List ℕ
  pub signals : List (ClusterSignal F)
  pub relevance : F.Float
  pub ticket_key : Option String

-- `HashSet::extend`.
unfoldable pub extend : List ℕ → List ℕ → List ℕ
extend set [] = set
extend set (x ∷ xs) = extend (if contains set x then set else x ∷ set) xs

-- `sort_unstable`.
unfoldable pub insert_sorted : ℕ → List ℕ → List ℕ
insert_sorted x [] = x ∷ []
insert_sorted x (y ∷ ys) = let rest = insert_sorted x ys in if leb x y then x ∷ y ∷ ys else y ∷ rest

unfoldable pub sort_iids : List ℕ → List ℕ
sort_iids [] = []
sort_iids (x ∷ xs) = insert_sorted x (sort_iids xs)

module _ {F : Floats} where
  -- The sets of a candidate and of a group are not disjoint.
  abbrev pub overlaps : List ℕ → MergedCandidate F → Bool
  overlaps iids group = any (contains group.mr_iids) iids

  -- A group that is removed goes into the one that is built.
  abbrev pub take_in : MergedCandidate F → MergedCandidate F → MergedCandidate F
  take_in removed all = record {
    mr_iids = extend all.mr_iids removed.mr_iids;
    signals = all.signals ++ removed.signals;
    relevance = if F.gt removed.relevance all.relevance then removed.relevance else all.relevance;
    ticket_key = elim all.ticket_key [ none ↦ removed.ticket_key | some k ↦ some k ];
  }

  -- The loop over the overlapping groups, the last one first, with the groups that are left.
  unfoldable pub absorb :
      List ℕ
      → List (MergedCandidate F)
      → MergedCandidate F
      → MergedCandidate F × List (MergedCandidate F)
  absorb iids [] all = (all, [])
  absorb iids (group ∷ groups) all =
      let (all', rest) = absorb iids groups all in
      if overlaps iids group then (take_in group all', rest) else (all', group ∷ rest)

  -- One candidate is added to the groups.
  unfoldable pub add_candidate :
      ClusterCandidate F → List (MergedCandidate F) → List (MergedCandidate F)
  add_candidate c groups =
      if any (overlaps c.mr_iids) groups
      then (let (all, rest) = absorb c.mr_iids groups (record {
        mr_iids = extend [] c.mr_iids;
        signals = c.signal ∷ [];
        relevance = c.relevance;
        ticket_key = c.ticket_key;
      }) in
          rest ++ record all { mr_iids = sort_iids all.mr_iids } ∷ [])
      else groups
        ++ record {
          mr_iids = c.mr_iids;
          signals = c.signal ∷ [];
          relevance = c.relevance;
          ticket_key = c.ticket_key;
        }
          ∷ []

  unfoldable pub add_candidates :
      List (ClusterCandidate F) → List (MergedCandidate F) → List (MergedCandidate F)
  add_candidates [] groups = groups
  add_candidates (c ∷ cs) groups = add_candidates cs (add_candidate c groups)

  unfoldable pub merge_candidates : List (ClusterCandidate F) → List (MergedCandidate F)
  merge_candidates candidates = add_candidates candidates []

pub record DiffHunk : Type 0 where
  pub old_start : ℕ
  pub old_count : ℕ
  pub new_start : ℕ
  pub new_count : ℕ

-- The sum of two `u32`, as a build without overflow checks computes it.
abbrev pub wrap : ℕ → ℕ
wrap n = n % 2 ^ 32

-- Whether two hunks overlap on the side of the old file.
unfoldable pub hunks_overlap : DiffHunk → DiffHunk → Bool
hunks_overlap a b =
    if a.old_count == 0 || b.old_count == 0
    then false
    else (let a_end = wrap (a.old_start + a.old_count) in
        let b_end = wrap (b.old_start + b.old_count) in
        ltb a.old_start b_end && ltb b.old_start a_end)
