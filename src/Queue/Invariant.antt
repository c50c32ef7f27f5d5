-- ===== src/Queue/Invariant.antt =====
-- What holds in every state that the queue reaches, however requests and run loop interleave.
use botto.Prelude.{
  String, ℕ, ◌≤◌, ◌≡◌, true, false, not, ◌&&◌, List, [], ◌∷◌, ◌++◌, Option, none, some, string_key,
  arith, any, All, All-map, All-append, All-retain, Bool-cases, Option-cases, inl, inr, contains,
}
use botto.Queue.{
  Scores, QueueItem, queued, is_for, is_queued, is_running, drop_item, pick, Queue, Worker, picked,
  building, built, reviewing, cleaning, dropping, resetting, enqueue, cancel, cancel_active, mr_key,
}
use botto.Queue.Order.{
  count_for, count_for-sort_items, count_for-append, count_for-none, count_for-retain-le,
  All-sort_items,
}

-- The merge request that the run loop is busy with, and the token of its review.
abbrev pub current : Worker → Option (String × ℕ)
current (picked p n) = some (p, n)
current (building p n) = some (p, n)
current (built p n) = some (p, n)
current (reviewing p n token) = some (p, n)
current (cleaning p n token) = some (p, n)
current (dropping p n token) = some (p, n)
current _ = none

abbrev pub current_token : Worker → Option ℕ
current_token (reviewing p n token) = some token
current_token (cleaning p n token) = token
current_token (dropping p n token) = token
current_token (resetting token) = token
current_token _ = none

module _ {S : Scores} where
  -- An item that is running is the one the run loop is busy with.
  abbrev pub OwnRunning : Worker → List (QueueItem S) → Type 0
  OwnRunning worker items =
      All (λ i. is_running i.status ≡ true → current worker ≡ some (i.project_path, i.mr_iid)) items

  pub record Inv (q : Queue S) : Type 0 where
    pub unique : (p : String) (n : ℕ) → count_for p n q.items ≤ 1
    pub own : OwnRunning q.worker q.items
    pub token : (t : ℕ) → q.active_cancel ≡ some t → current_token q.worker ≡ some t

  pub pick-own :
      (items : List (QueueItem S))
      → All (λ i. is_running i.status ≡ false) items
      → (pick items).0 ≡ none
      → All (λ i. is_running i.status ≡ false) (pick items).1
  unfolding pick
  pick-own [] h e = tt
  pick-own (i ∷ items) h e = elim (Bool-cases (is_queued i.status)) [
    | inl first ↦ cc (rw first at e)
    | inr skipped ↦ rw skipped (h.0, pick-own items h.1 (rw skipped at e))
  ]

  -- The item that is picked becomes the only running one.
  pub picked-own :
      (items : List (QueueItem S)) (p : String) (n : ℕ)
      → All (λ i. is_running i.status ≡ false) items
      → (pick items).0 ≡ some (p, n)
      → OwnRunning (picked p n) (pick items).1
  unfolding pick
  picked-own [] p n h e = tt
  picked-own (i ∷ items) p n h e = elim (Bool-cases (is_queued i.status)) [
    | inl first ↦
        let same : (i.project_path ≡ p) × (i.mr_iid ≡ n) = ground (arith, rw first at e) in
        rw first (λ r. cc (same.0, same.1), All-map _ _ (λ j idle r. cc (idle, r)) items h.1)
    | inr skipped ↦ rw skipped (λ r. cc (h.0, r), picked-own items p n h.1 (rw skipped at e))
  ]

  pub none_running :
      (worker : Worker) (items : List (QueueItem S))
      → current worker ≡ none
      → OwnRunning worker items
      → All (λ i. is_running i.status ≡ false) items
  none_running worker items idle own =
      All-map _ _
        (λ i f. elim (Bool-cases (is_running i.status)) [
          | inl runs ↦ cc (f runs, idle)
          | inr rests ↦ rests
        ])
        items own

  pub OwnRunning-of :
      (worker : Worker) (items : List (QueueItem S))
      → All (λ i. is_running i.status ≡ false) items
      → OwnRunning worker items
  OwnRunning-of worker items = All-map _ _ (λ i idle r. cc (idle, r)) items

  -- Once the item of the run loop is dropped none is running.
  pub dropped-own :
      (worker worker' : Worker) (p : String) (n : ℕ) (items : List (QueueItem S))
      → current worker ≡ some (p, n)
      → OwnRunning worker items
      → OwnRunning worker' (drop_item p n items)
  dropped-own worker worker' p n [] busy own = tt
  dropped-own worker worker' p n (i ∷ items) busy own = elim (Bool-cases (is_for p n i)) [
    | inl same ↦ rw same (dropped-own worker worker' p n items busy own.1)
    | inr other ↦
        rw other
          (λ r. absurd (apart i other (own.0 r)), dropped-own worker worker' p n items busy own.1)
  ]
    where
      apart :
          (i : QueueItem S)
          → is_for p n i ≡ false
          → current worker ≡ some (i.project_path, i.mr_iid)
          → ⊥
      apart i other e =
          let path : p ≡ i.project_path = cc (busy, e) in
          let iid : n ≡ i.mr_iid = cc (busy, e) in ground (arith, other, path, iid)

  pub enqueue-Inv :
      (p : String) (n : ℕ) (score : S.Score) (q : Queue S) → Inv q → Inv (enqueue p n score q).1
  unfolding enqueue
  enqueue-Inv p n score q inv = elim (Bool-cases (any (is_for p n) q.items)) [
    | inl twice ↦ rw (twice, enqueue) inv
    | inr fresh ↦ elim (Bool-cases (contains q.in_flight (mr_key p n))) [
      | inl reviewed ↦ rw (fresh, enqueue) (rw (reviewed, enqueue) inv)
      | inr idle ↦
          let item : QueueItem S = record {
            project_path = p;
            mr_iid = n;
            priority_score = score;
            status = queued;
          } in
          rw (fresh, enqueue)
            (rw (idle, enqueue)
              (record {
                unique = λ p' n'. ground (
                  arith,
                  count_for-sort_items p' n' (q.items ++ item ∷ []),
                  count_for-append p' n' q.items (item ∷ []),
                  inv.unique p' n',
                  count_for-none p n q.items fresh,
                );
                own = All-sort_items _ _ (All-append _ q.items (item ∷ []) inv.own (λ r. cc r, tt));
                token = inv.token;
              }))
    ]
  ]

  pub cancel-Inv : (p : String) (n : ℕ) (q : Queue S) → Inv q → Inv (cancel p n q)
  unfolding cancel cancel_active
  cancel-Inv p n q inv =
      elim (Bool-cases (any (λ i. is_for p n i && is_running i.status) q.items)) [
        | inr idle ↦ rw (idle, cancel_active) inv'
        | inl runs ↦ elim (Option-cases q.active_cancel) [
          | inl absent ↦ rw (runs, cancel_active) (rw (absent, cancel_active) inv')
          | inr (t, active) ↦
              rw (runs, cancel_active)
                (rw (active, cancel_active)
                  (record { unique = inv'.unique; own = inv'.own; token = λ t e. cc e }))
        ]
      ]
    where
      inv' : Inv (record q { items = drop_item p n q.items })
      inv' = record {
        unique = λ p' n'.
            omega (
              arith,
              inv.unique p' n',
              count_for-retain-le p' n' (λ i. not (is_for p n i)) q.items,
            );
        own = All-retain _ _ q.items inv.own;
        token = inv.token;
      }
