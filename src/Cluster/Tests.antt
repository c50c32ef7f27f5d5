-- ===== src/Cluster/Tests.antt =====
-- Candidates, hunks and rows, and the theorems at them.
use text.Mathlib.Text.{◌==◌ as str_eq}
use botto.Prelude.{
  Bool, false, String, String_discrete, string_key, refl, ℕ, ◌≡◌, ◌↔◌, List, [], ◌∷◌, true, none,
  some, if◌then◌else◌, arith, ltb, ok, ◌++◌, ◌+◌, nat_key,
}
use botto.Cluster.{
  Floats, ClusterCandidate, ClusterSignal, DiffHunk, merge_candidates, hunks_overlap,
}
use botto.Cluster.Merging.{
  holders, has, count_signals, count_candidates, holders-merge_candidates,
  count_signals-merge_candidates,
}
use botto.Prelude.Maps.{lookup, insert, remove}
use botto.Cluster.Removal.{
  ClusterMember, Row, Writes, remove_mr_from_clusters, remove_from_rows, write_back, upserted,
  cluster_ttl_days,
}
use botto.Cluster.Hunks.{Covers, hunks_overlap-line}

-- Scores in per cent.
abbrev per_cent : Floats
per_cent = record { Float = ℕ; gt = λ a b. ltb b a }

abbrev three : List (ClusterCandidate per_cent)
three =
    record {
      mr_iids = 1 ∷ 2 ∷ [];
      signal = ClusterSignal.shared_ticket "A-1";
      relevance = 90;
      ticket_key = some "A-1";
    }
    ∷ record {
      mr_iids = 4 ∷ 5 ∷ [];
      signal = ClusterSignal.file_overlap 40 ("main.rs" ∷ []);
      relevance = 40;
      ticket_key = none;
    }
    ∷ record {
      mr_iids = 2 ∷ 3 ∷ [];
      signal = ClusterSignal.file_overlap 50 ("lib.rs" ∷ []);
      relevance = 50;
      ticket_key = none;
    }
    ∷ []

holders-merge_candidates_example :
    holders 2 (merge_candidates three) ≡ (if has 2 three then 1 else 0)
holders-merge_candidates_example = holders-merge_candidates 2 three

abbrev is_overlap : ClusterSignal per_cent → Bool
is_overlap (ClusterSignal.shared_ticket ticket_key) = false
is_overlap (ClusterSignal.file_overlap jaccard shared_files) = true

count_signals-merge_candidates_example :
    count_signals is_overlap (merge_candidates three) ≡ count_candidates is_overlap three
count_signals-merge_candidates_example = count_signals-merge_candidates is_overlap three

abbrev first : DiffHunk
first = record { old_start = 42; old_count = 18; new_start = 42; new_count = 23 }

abbrev second : DiffHunk
second = record { old_start = 50; old_count = 10; new_start = 55; new_count = 10 }

hunks_overlap-line_example :
    (hunks_overlap first second ≡ true) ↔ ((line : ℕ) × Covers first line × Covers second line)
hunks_overlap-line_example = hunks_overlap-line first second (omega arith) (omega arith)

abbrev member : ℕ → ClusterMember
member iid = record { mr_iid = iid; mr_title = "title"; author = "ann"; role = none }

abbrev row : (now : ℕ) → List ClusterMember → Row ℕ String
row now members = record {
  project_id = 1;
  ticket_key = none;
  members = some members;
  signals_json = "[]";
  relevance = 90;
  summary_json = some "{}";
  summary_diff_hash = none;
  review_order_json = none;
  created_at = 1000;
  updated_at = now;
  expires_at = now + 604800;
}

-- The write for one of the rows fails.
abbrev writes : Writes
writes = record { fails = λ id. str_eq id "quad"; epoch_secs = λ id. 5000 }

abbrev found : List (String × Row ℕ String)
found =
    ("pair", row 1000 (member 1 ∷ member 2 ∷ []))
    ∷ ("trio", row 1000 (member 1 ∷ member 3 ∷ member 4 ∷ []))
    ∷ []

abbrev stored : List (String × Row ℕ String)
stored = found ++ ("other", row 1000 (member 5 ∷ member 6 ∷ [])) ∷ []

-- The pair is deleted, the trio loses a member, and the third row stays.
removed : remove_mr_from_clusters {E = String} writes 1 1 (ok found) stored ≡ (
  ok ("pair" ∷ "trio" ∷ []),
  ("trio", row 5000 (member 3 ∷ member 4 ∷ []))
      ∷ ("other", row 1000 (member 5 ∷ member 6 ∷ []))
      ∷ [],
)
unfolding remove_mr_from_clusters remove_from_rows write_back upserted cluster_ttl_days remove
    insert lookup String_discrete
removed = refl

-- A write that fails leaves its row, whose id is returned all the same.
unwritten :
    remove_mr_from_clusters {E = String} writes 1 1
      (ok (("quad", row 1000 (member 1 ∷ [])) ∷ []))
      (("quad", row 1000 (member 1 ∷ [])) ∷ [])
    ≡ (ok ("quad" ∷ []), ("quad", row 1000 (member 1 ∷ [])) ∷ [])
unfolding remove_mr_from_clusters remove_from_rows write_back
unwritten = refl
