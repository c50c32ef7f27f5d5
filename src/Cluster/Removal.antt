-- ===== src/Cluster/Removal.antt =====
-- Taking a merge request out of all clusters when it is merged or closed (`remove_mr_from_clusters`
-- of src/services/cluster/detector.rs, and the writes of src/db/queries.rs that it calls). The table
-- of clusters is a map from their ids; what the query answers is an argument.
use mathlib.Core.Option.{get_or}
use botto.Prelude.{
  String, ℕ, ◌≡◌, ◌≤◌, ◌+◌, ◌*◌, Bool, not, List, [], ◌∷◌, map, Option, none, some, string_key,
  if◌then◌else◌, ltb, ◌==◌, retain, length, count, nat_key, Result, ok, err,
}
use botto.Prelude.Maps.{lookup, insert, remove}

pub record ClusterMember : Type 0 where
  pub mr_iid : ℕ
  pub mr_title : String
  pub author : String
  pub role : Option String

-- A row of `mr_clusters`, with the members that its JSON holds, if it can be read. `Float` is f64,
-- `Blob` the bytes of a column; times are seconds since 1970.
pub record Row (Float Blob : Type 0) : Type 0 where
  pub project_id : ℕ
  pub ticket_key : Option String
  pub members : Option (List ClusterMember)
  pub signals_json : String
  pub relevance : Float
  pub summary_json : Option Blob
  pub summary_diff_hash : Option String
  pub review_order_json : Option Blob
  pub created_at : ℕ
  pub updated_at : ℕ
  pub expires_at : ℕ

-- What the database and the clock answer to the one write for each id.
pub record Writes : Type 0 where
  pub fails : String → Bool
  pub epoch_secs : String → ℕ

unfoldable pub cluster_ttl_days : ℕ
cluster_ttl_days = 7

module _ {Float Blob : Type 0} where
  abbrev pub without_mr : ℕ → Row Float Blob → List ClusterMember
  without_mr mr_iid row = retain (λ m. not (m.mr_iid == mr_iid)) (get_or row.members [])

  -- The row that `upsert_cluster` leaves: a new one, or the old one with some columns written anew.
  unfoldable pub upserted :
      (project_id now : ℕ)
      → Row Float Blob
      → List ClusterMember
      → Option (Row Float Blob)
      → Row Float Blob
  unfolding cluster_ttl_days
  upserted project_id now row members none = record {
    project_id = project_id;
    ticket_key = row.ticket_key;
    members = some members;
    signals_json = row.signals_json;
    relevance = row.relevance;
    summary_json = none;
    summary_diff_hash = none;
    review_order_json = none;
    created_at = now;
    updated_at = now;
    expires_at = now + cluster_ttl_days * 86400;
  }
  upserted project_id now row members (some old) = record old {
    ticket_key = row.ticket_key;
    members = some members;
    signals_json = row.signals_json;
    relevance = row.relevance;
    updated_at = now;
    expires_at = now + cluster_ttl_days * 86400;
  }

  -- Deletes the row or writes it anew; a write that fails is ignored.
  unfoldable pub write_back :
      Writes
      → (project_id mr_iid : ℕ) → String
      → Row Float Blob
      → List (String × Row Float Blob)
      → List (String × Row Float Blob)
  write_back writes project_id mr_iid id row table =
      if writes.fails id
      then table
      else if ltb (length (without_mr mr_iid row)) 2
      then remove id table
      else insert id
          (upserted project_id (writes.epoch_secs id) row (without_mr mr_iid row) (lookup id table))
          table

  -- The loop over the rows that the query found: the ids of the rows, and the table after it.
  unfoldable pub remove_from_rows :
      Writes
      → (project_id mr_iid : ℕ) → List (String × Row Float Blob)
      → List (String × Row Float Blob)
      → List String × List (String × Row Float Blob)
  remove_from_rows writes project_id mr_iid [] table = ([], table)
  remove_from_rows writes project_id mr_iid ((id, row) ∷ existing) table =
      let (ids, table') =
        remove_from_rows writes project_id mr_iid existing
          (write_back writes project_id mr_iid id row table) in
      (id ∷ ids, table')

  unfoldable pub remove_mr_from_clusters :
      {E : Type 0}
      → Writes
      → (project_id mr_iid : ℕ) → Result E (List (String × Row Float Blob))
      → List (String × Row Float Blob)
      → Result E (List String) × List (String × Row Float Blob)
  remove_mr_from_clusters writes project_id mr_iid (err e) table = (err e, table)
  remove_mr_from_clusters writes project_id mr_iid (ok existing) table =
      let (affected_ids, table') = remove_from_rows writes project_id mr_iid existing table in
      (ok affected_ids, table')

  -- What becomes of a row that was found, and of what was stored under its id.
  abbrev pub reduced :
      Writes
      → (project_id mr_iid : ℕ) → String
      → Row Float Blob
      → Option (Row Float Blob)
      → Option (Row Float Blob)
  reduced writes project_id mr_iid id row stored =
      if writes.fails id
      then stored
      else if ltb (length (without_mr mr_iid row)) 2
      then none
      else some (upserted project_id (writes.epoch_secs id) row (without_mr mr_iid row) stored)

  -- What the row of an id becomes, of the row that the query found and the row that was stored.
  abbrev pub after_removal :
      Writes
      → (project_id mr_iid : ℕ) → String
      → Option (Row Float Blob)
      → Option (Row Float Blob)
      → Option (Row Float Blob)
  after_removal writes project_id mr_iid id none stored = stored
  after_removal writes project_id mr_iid id (some row) stored =
      reduced writes project_id mr_iid id row stored

  abbrev pub row_ids : List (String × Row Float Blob) → List String
  row_ids = map (λ r. r.0)

  -- The rows that the query found have different ids, if it found rows.
  abbrev pub Distinct : {E : Type 0} → Result E (List (String × Row Float Blob)) → Type 0
  Distinct (err e) = Unit {0}
  Distinct (ok existing) = (y : String) → count y (row_ids existing) ≤ 1

  abbrev pub Removed :
      {E : Type 0}
      → Writes
      → (project_id mr_iid : ℕ) → Result E (List (String × Row Float Blob))
      → String
      → List (String × Row Float Blob)
      → Result E (List String) × List (String × Row Float Blob)
      → Type 0
  Removed writes project_id mr_iid (err e) x table (answer, table') =
      (answer ≡ err e) × (table' ≡ table)
  Removed writes project_id mr_iid (ok existing) x table (answer, table') =
      (answer ≡ ok (row_ids existing))
      × (lookup x table'
          ≡ after_removal writes project_id mr_iid x (lookup x existing) (lookup x table))
