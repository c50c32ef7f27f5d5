-- ===== src/Presence.antt =====
-- Who views which merge request (`AppState` of src/types/state.rs): the connections, and the index
-- from merge requests to the connections that view them. Each operation is taken as one step. The
-- sets and maps are lists in some order of iteration.
pub mod Index
pub mod Delivery
mod Tests
use mathlib.Core.Option.{get_or}
use botto.Prelude.{
  String, ℕ, ◌≡◌, Bool, true, false, not, ◌&&◌, List, [], ◌∷◌, ◌++◌, Option, none, some,
  String_discrete, string_key, contains, if◌then◌else◌, ite, ◌<>◌, decimal, retain,
}
use botto.Prelude.Maps.{lookup, insert, remove}

pub record ViewingFile : Type 0 where
  pub path : String
  pub first_line : Option ℕ
  pub last_line : Option ℕ

pub record MrRef : Type 0 where
  pub project_path : String
  pub mr_iid : ℕ

-- `MrRef::key`.
abbrev pub key : MrRef → String
key mr = mr.project_path <> ":" <> decimal mr.mr_iid

-- `Instant` is the type of `tokio`'s clock. The sender of a connection is its id: what is sent to it
-- is logged in the state.
pub record Connection (Instant : Type 0) : Type 0 where
  pub id : String
  pub user_id : Option String
  pub display_name : Option String
  pub avatar_url : Option String
  pub authenticated : Bool
  pub viewing_mr : Option MrRef
  pub viewing_files : List ViewingFile
  pub files_updated_at : Option Instant

-- One viewer with the files in view, as `get_mr_presence` reports it.
pub record Presence : Type 0 where
  pub user_id : Option String
  pub display_name : Option String
  pub avatar_url : Option String
  pub files : List ViewingFile

pub record AppState (Instant : Type 0) : Type 0 where
  pub connections : List (String × Connection Instant)
  pub mr_viewers : List (String × List String)
  pub sent : List (String × String)

abbrev pub same : String → String → Bool
same s t = ite (String_discrete s t) true false

abbrev pub is_empty {ℓ} : {A : Type ℓ} → List A → Bool
is_empty [] = true
is_empty (x ∷ xs) = false

-- Removes a connection from the set of an entry, and the entry if its set is then empty: one step
-- here; the source gives up the lock of the entry before it removes the entry.
unfoldable pub leave : String → String → List (String × List String) → List (String × List String)
leave conn_id k viewers = elim (lookup k viewers) [
  | none ↦ viewers
  | some set ↦
      let rest = retain (λ c. not (same c conn_id)) set in
      if is_empty rest then remove k viewers else insert k rest viewers
]

abbrev pub leave_old :
    String → Option MrRef → List (String × List String) → List (String × List String)
leave_old conn_id none viewers = viewers
leave_old conn_id (some mr) viewers = leave conn_id (key mr) viewers

-- `entry(k).or_insert_with(HashSet::new).insert(conn_id)`.
unfoldable pub join : String → String → List (String × List String) → List (String × List String)
join conn_id k viewers =
    let set = get_or (lookup k viewers) [] in
    insert k (if contains set conn_id then set else conn_id ∷ set) viewers

module _ {Instant : Type 0} where
  unfoldable pub track_viewer : String → MrRef → AppState Instant → Option MrRef × AppState Instant
  track_viewer conn_id new_mr st = elim (lookup conn_id st.connections) [
    | none ↦ (none, st)
    | some conn ↦ (
      conn.viewing_mr,
      record st {
        connections =
            insert conn_id
              (record conn {
                viewing_mr = some new_mr;
                viewing_files = [];
                files_updated_at = none;
              })
              st.connections;
        mr_viewers = join conn_id (key new_mr) (leave_old conn_id conn.viewing_mr st.mr_viewers);
      },
    )
  ]

  unfoldable pub untrack_viewer : String → AppState Instant → Option MrRef × AppState Instant
  untrack_viewer conn_id st = elim (lookup conn_id st.connections) [
    | none ↦ (none, st)
    | some conn ↦ (
      conn.viewing_mr,
      record st {
        connections =
            insert conn_id
              (record conn { viewing_mr = none; viewing_files = []; files_updated_at = none })
              st.connections;
        mr_viewers = leave_old conn_id conn.viewing_mr st.mr_viewers;
      },
    )
  ]

  unfoldable pub remove_connection :
      String → AppState Instant → Option (Connection Instant) × AppState Instant
  remove_connection conn_id st = elim (lookup conn_id st.connections) [
    | none ↦ (none, st)
    | some conn ↦ (
      some conn,
      record st {
        connections = remove conn_id st.connections;
        mr_viewers = leave_old conn_id conn.viewing_mr st.mr_viewers;
      },
    )
  ]

  abbrev pub viewers_of : MrRef → AppState Instant → List String
  viewers_of mr st = get_or (lookup (key mr) st.mr_viewers) []

  -- The loop over the viewers: each authenticated one gets the message.
  unfoldable pub send_each :
      List (String × Connection Instant)
      → String
      → List String
      → List (String × String)
      → List (String × String)
  send_each connections message [] sent = sent
  send_each connections message (conn_id ∷ ids) sent = elim (lookup conn_id connections) [
    | none ↦ send_each connections message ids sent
    | some conn ↦
        if conn.authenticated
        then send_each connections message ids ((conn_id, message) ∷ sent)
        else send_each connections message ids sent
  ]

  unfoldable pub broadcast_to_mr : MrRef → String → AppState Instant → AppState Instant
  broadcast_to_mr mr message st = elim (lookup (key mr) st.mr_viewers) [
    | none ↦ st
    | some viewer_ids ↦ record st { sent = send_each st.connections message viewer_ids st.sent }
  ]

  -- The loop skips the sender.
  unfoldable pub broadcast_to_mr_except :
      MrRef → String → String → AppState Instant → AppState Instant
  broadcast_to_mr_except mr message except_id st = elim (lookup (key mr) st.mr_viewers) [
    | none ↦ st
    | some viewer_ids ↦ record st {
      sent =
          send_each st.connections message (retain (λ c. not (same c except_id)) viewer_ids)
            st.sent;
    }
  ]

  abbrev pub presence_of : Connection Instant → Presence
  presence_of conn = record {
    user_id = conn.user_id;
    display_name = conn.display_name;
    avatar_url = conn.avatar_url;
    files = conn.viewing_files;
  }

  unfoldable pub presence_each :
      List (String × Connection Instant) → Option String → List String → List Presence
  presence_each connections except_id [] = []
  presence_each connections except_id (conn_id ∷ ids) =
      let rest = presence_each connections except_id ids in
      elim except_id [
        | some x ↦ if same x conn_id then rest else add (lookup conn_id connections) rest
        | none ↦ add (lookup conn_id connections) rest
      ]
    where
      add : Option (Connection Instant) → List Presence → List Presence
      add none rest = rest
      add (some conn) rest =
          if conn.authenticated && not (is_empty conn.viewing_files)
          then presence_of conn ∷ rest
          else rest

  unfoldable pub get_mr_presence : MrRef → Option String → AppState Instant → List Presence
  get_mr_presence mr except_id st = elim (lookup (key mr) st.mr_viewers) [
    | none ↦ []
    | some viewer_ids ↦ presence_each st.connections except_id viewer_ids
  ]
