-- ===== src/Queue/Steps.antt =====
-- One step of the run loop (`QueueManager::run`), and the steps of the whole queue.
use botto.Prelude.{
  String, ℕ, suc, ◌≡◌, Bool, true, false, List, [], ◌∷◌, none, some, string_key, contains,
  if◌then◌else◌, retain, String_discrete, ite,
}
use botto.Queue.{
  Scores, Queue, waiting, picking, picked, building, built, reviewing, cleaning, dropping,
  resetting, stopped, review_finished, viewers_notified, review_complete, row_error, mr_key,
  drop_item, pick, enqueue, cancel,
}

-- What the calls of other services answer: whether the context was built (in one of the two
-- attempts) and whether the review gave a result.
pub record Answers : Type 0 where
  pub has_context : Bool
  pub has_result : Bool

module _ {S : Scores} where
  -- Waits for a notification or the shutdown. If both are there, either may be taken.
  unfoldable pub wake : Queue S → Queue S
  wake q = if q.notified then record q { notified = false; worker = picking } else q

  unfoldable pub next_item : Queue S → Queue S
  next_item q =
      if q.shutdown
      then record q { worker = waiting }
      else (let (next, items) = pick q.items in
          elim next [
            | none ↦ record q { worker = waiting }
            | some (project_path, mr_iid) ↦ record q {
              items = items;
              worker = picked project_path mr_iid;
            }
          ])

  -- The item is dropped if a review is in flight, else its own review is registered.
  unfoldable pub register : String → ℕ → Queue S → Queue S
  register project_path mr_iid q =
      if contains q.in_flight (mr_key project_path mr_iid)
      then record q { items = drop_item project_path mr_iid q.items; worker = picking }
      else record q {
        in_flight = mr_key project_path mr_iid ∷ q.in_flight;
        worker = building project_path mr_iid;
      }

  unfoldable pub context_built : String → ℕ → Bool → Queue S → Queue S
  context_built project_path mr_iid has_context q =
      if has_context then record q { worker = built project_path mr_iid } else record q {
        log = row_error project_path mr_iid ∷ q.log;
        worker = cleaning project_path mr_iid none;
      }

  -- A fresh token for the review becomes the active one.
  unfoldable pub begin_review : String → ℕ → Queue S → Queue S
  begin_review project_path mr_iid q = record q {
    active_cancel = some q.next_token;
    next_token = suc q.next_token;
    worker = reviewing project_path mr_iid q.next_token;
  }

  unfoldable pub end_review : String → ℕ → ℕ → Bool → Queue S → Queue S
  end_review project_path mr_iid token has_result q =
      let told =
        if has_result
        then viewers_notified project_path mr_iid ∷ review_finished project_path mr_iid ∷ q.log
        else review_finished project_path mr_iid ∷ q.log in
      record q {
        log = review_complete project_path mr_iid ∷ told;
        worker = cleaning project_path mr_iid (some token);
      }

  unfoldable pub advance : Answers → Queue S → Queue S
  advance answers q = elim q.worker [
    | waiting ↦ wake q
    | picking ↦ next_item q
    | picked project_path mr_iid ↦ register project_path mr_iid q
    | building project_path mr_iid ↦ context_built project_path mr_iid answers.has_context q
    | built project_path mr_iid ↦ begin_review project_path mr_iid q
    | reviewing project_path mr_iid token ↦
        end_review project_path mr_iid token answers.has_result q
    | cleaning project_path mr_iid token ↦ record q {
      in_flight =
          retain (λ k. ite (String_discrete k (mr_key project_path mr_iid)) false true) q.in_flight;
      worker = dropping project_path mr_iid token;
    }
    | dropping project_path mr_iid token ↦ record q {
      items = drop_item project_path mr_iid q.items;
      worker = resetting token;
    }
    | resetting token ↦ record q { active_cancel = none; worker = picking }
    | stopped ↦ q
  ]

  -- The requests of clients, the run loop, the shutdown and the interactive reviews, which change
  -- what is in flight, interleave.
  pub data Step : Queue S → Queue S → Type 0 where
    enqueues :
        (project_path : String) (mr_iid : ℕ) (score : S.Score) {q : Queue S}
        → Step q (enqueue project_path mr_iid score q).1
    cancels :
        (project_path : String) (mr_iid : ℕ) {q : Queue S} → Step q (cancel project_path mr_iid q)
    advances : (answers : Answers) {q : Queue S} → Step q (advance answers q)
    shuts_down : {q : Queue S} → Step q (record q { shutdown = true })
    stops :
        {q : Queue S}
        → q.worker ≡ waiting
        → q.shutdown ≡ true
        → Step q (record q { worker = stopped })
    others_review :
        (in_flight : List String) {q : Queue S} → Step q (record q { in_flight = in_flight })

  -- `QueueManager::new`.
  abbrev pub new : List String → Queue S
  new in_flight = record {
    items = [];
    active_cancel = none;
    notified = false;
    in_flight = in_flight;
    cancelled = [];
    next_token = 0;
    shutdown = false;
    worker = waiting;
    log = [];
  }

  pub data Reachable : Queue S → Type 0 where
    starts : (in_flight : List String) → Reachable (new in_flight)
    steps : {q q' : Queue S} → Reachable q → Step q q' → Reachable q'
