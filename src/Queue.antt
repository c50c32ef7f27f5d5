-- ===== src/Queue.antt =====
-- The background review queue (`QueueManager` of src/services/queue/manager.rs): its operations,
-- which run under the lock of the items, and the run loop, cut where it waits or takes a lock.
-- Building the context of a merge request and reviewing it are calls of other services; what they
-- answer is an argument of the step that goes on after them.
pub mod Order
pub mod Steps
pub mod Invariant
pub mod Safety
pub mod Priority
mod Tests
use Prim.Native.Nat.{Ordering}
use botto.Prelude.{
  String, ℕ, suc, ◌+◌, ◌≡◌, Bool, true, false, not, ◌&&◌, List, [], ◌∷◌, ◌++◌, Option, none, some,
  String_discrete, string_key, contains, if◌then◌else◌, ite, ◌==◌, ◌<>◌, decimal, any, retain,
  Result, ok, err,
}

-- `f64` with `f64::partial_cmp`, of which the queue uses the order alone.
pub record Scores : Type 1 where
  pub Score : Type 0
  pub partial_cmp : Score → Score → Option Ordering

pub data ItemStatus : Type 0 where
  queued : ItemStatus
  running : ItemStatus
  paused : ItemStatus

pub record QueueItem (S : Scores) : Type 0 where
  pub project_path : String
  pub mr_iid : ℕ
  pub priority_score : S.Score
  pub status : ItemStatus

-- Where the run loop is: waiting for a notification, between two items, and the places between the
-- locks that it takes for one item, with the token that it set for the item's review.
pub data Worker : Type 0 where
  waiting : Worker
  picking : Worker
  picked : (project_path : String) (mr_iid : ℕ) → Worker
  building : (project_path : String) (mr_iid : ℕ) → Worker
  built : (project_path : String) (mr_iid : ℕ) → Worker
  reviewing : (project_path : String) (mr_iid token : ℕ) → Worker
  cleaning : (project_path : String) (mr_iid : ℕ) (token : Option ℕ) → Worker
  dropping : (project_path : String) (mr_iid : ℕ) (token : Option ℕ) → Worker
  resetting : (token : Option ℕ) → Worker
  stopped : Worker

pub data Effect : Type 0 where
  row_written : (project_path : String) (mr_iid : ℕ) → Effect
  review_started : (project_path : String) (mr_iid : ℕ) → Effect
  review_finished : (project_path : String) (mr_iid : ℕ) → Effect
  viewers_notified : (project_path : String) (mr_iid : ℕ) → Effect
  review_complete : (project_path : String) (mr_iid : ℕ) → Effect
  row_error : (project_path : String) (mr_iid : ℕ) → Effect

pub data EnqueueError : Type 0 where
  already_queued : EnqueueError
  review_in_flight : EnqueueError

-- The manager's fields, the keys of the reviews in flight, the tokens that were cancelled, the
-- number of the next token, and the place of the run loop.
pub record Queue (S : Scores) : Type 0 where
  pub items : List (QueueItem S)
  pub active_cancel : Option ℕ
  pub notified : Bool
  pub in_flight : List String
  pub cancelled : List ℕ
  pub next_token : ℕ
  pub shutdown : Bool
  pub worker : Worker
  pub log : List Effect

abbrev pub mr_key : String → ℕ → String
mr_key project_path mr_iid = project_path <> ":" <> decimal mr_iid

abbrev pub is_queued : ItemStatus → Bool
is_queued queued = true
is_queued _ = false

abbrev pub is_running : ItemStatus → Bool
is_running running = true
is_running _ = false

module _ {S : Scores} where
  abbrev pub is_for : String → ℕ → QueueItem S → Bool
  is_for project_path mr_iid item =
      ite (String_discrete item.project_path project_path) (item.mr_iid == mr_iid) false

  -- The comparison of `sort_by` is `Less`: the first item has the higher score.
  abbrev pub before : QueueItem S → QueueItem S → Bool
  before a b = elim (S.partial_cmp b.priority_score a.priority_score) [
    | some Ordering.lt ↦ true
    | _ ↦ false
  ]

  -- The stable sort of `Vec::sort_by`.
  unfoldable pub place : QueueItem S → List (QueueItem S) → List (QueueItem S)
  place item [] = item ∷ []
  place item (other ∷ items) =
      let rest = place item items in
      if before other item then other ∷ rest else item ∷ other ∷ items

  unfoldable pub sort_items : List (QueueItem S) → List (QueueItem S)
  sort_items [] = []
  sort_items (item ∷ items) = place item (sort_items items)

  unfoldable pub enqueue : String → ℕ → S.Score → Queue S → Result EnqueueError Unit × Queue S
  enqueue project_path mr_iid priority_score q =
      if any (is_for project_path mr_iid) q.items
      then (err already_queued, q)
      else (if contains q.in_flight (mr_key project_path mr_iid)
          then (err review_in_flight, q)
          else (
            ok tt,
            record q {
              items = sort_items (
                  q.items
                  ++ record {
                    project_path = project_path;
                    mr_iid = mr_iid;
                    priority_score = priority_score;
                    status = queued;
                  }
                    ∷ []);
              notified = true;
              log = review_started project_path mr_iid ∷ row_written project_path mr_iid ∷ q.log;
            },
          ))

  abbrev pub drop_item : String → ℕ → List (QueueItem S) → List (QueueItem S)
  drop_item project_path mr_iid = retain (λ i. not (is_for project_path mr_iid i))

  -- The token of the running review is cancelled and taken.
  unfoldable pub cancel_active : String → ℕ → Queue S → Queue S
  cancel_active project_path mr_iid q =
      if any (λ i. is_for project_path mr_iid i && is_running i.status) q.items
      then (elim q.active_cancel [
        | none ↦ q
        | some token ↦ record q { active_cancel = none; cancelled = token ∷ q.cancelled }
      ])
      else q

  unfoldable pub cancel : String → ℕ → Queue S → Queue S
  cancel project_path mr_iid q =
      let stopped = cancel_active project_path mr_iid q in
      record stopped { items = drop_item project_path mr_iid q.items }

  -- The first queued item is marked as running.
  unfoldable pub pick : List (QueueItem S) → Option (String × ℕ) × List (QueueItem S)
  pick [] = (none, [])
  pick (item ∷ items) =
      let (next, rest) = pick items in
      if is_queued item.status
      then (some (item.project_path, item.mr_iid), record item { status = running } ∷ items)
      else (next, item ∷ rest)
