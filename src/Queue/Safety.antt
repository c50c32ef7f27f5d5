-- ===== src/Queue/Safety.antt =====
-- The invariant in every state that the queue reaches, and what follows from it.
use botto.Prelude.{
  String, ℕ, suc, ◌≤◌, ◌≡◌, refl, sym, ap, ◌∙◌, true, false, not, ◌&&◌, List, [], ◌∷◌, some,
  string_key, arith, if◌then◌else◌, any, All, All-map, Bool-cases, Option-cases, inl, inr, ◌⊎◌,
  contains,
}
use botto.Queue.{
  Scores, QueueItem, is_for, is_running, before, drop_item, pick, Queue, Worker, waiting, picking,
  picked, building, built, reviewing, cleaning, dropping, resetting, stopped, cancel, cancel_active,
  mr_key,
}
use botto.Queue.Order.{count_for, count_for-retain-le, count_for-drop_item, count_for-pick}
use botto.Queue.Steps.{
  Step, enqueues, cancels, advances, shuts_down, stops, others_review, Reachable, starts, steps,
  Answers, advance, wake, next_item, register, context_built, begin_review, end_review,
}
use botto.Queue.Invariant.{
  Inv, OwnRunning, OwnRunning-of, current, current_token, none_running, picked-own, dropped-own,
  enqueue-Inv, cancel-Inv,
}

module _ {S : Scores} where
  -- The items and the active token may rest while the run loop goes on.
  rest-Inv :
      (q q' : Queue S)
      → q'.items ≡ q.items
      → current q'.worker ≡ current q.worker
      → q'.active_cancel ≡ q.active_cancel
      → ((t : ℕ) → current_token q.worker ≡ some t → current_token q'.worker ≡ some t)
      → Inv q
      → Inv q'
  rest-Inv q q' items busy active tokens inv = record {
    unique = λ p n. rw items (inv.unique p n);
    own = rw items (All-map _ _ (λ i f r. busy ∙ f r) q.items inv.own);
    token = λ t e. tokens t (inv.token t (sym active ∙ e));
  }

  next_item-Inv : (q : Queue S) → q.worker ≡ picking → Inv q → Inv (next_item q)
  unfolding next_item
  next_item-Inv q at_pick inv =
      let idle = none_running q.worker q.items (ap current at_pick) inv.own in
      let no_token : (t : ℕ) → q.active_cancel ≡ some t → ⊥ =
        λ t e. cc (inv.token t e, ap current_token at_pick) in
      elim (Bool-cases q.shutdown) [
        | inl down ↦
            rw (down, next_item)
              (record {
                unique = inv.unique;
                own = OwnRunning-of waiting q.items idle;
                token = λ t e. absurd (no_token t e);
              })
        | inr up ↦ elim (Option-cases (pick q.items).0) [
          | inl empty ↦
              rw (up, next_item)
                (rw (empty, next_item)
                  (record {
                    unique = inv.unique;
                    own = OwnRunning-of waiting q.items idle;
                    token = λ t e. absurd (no_token t e);
                  }))
          | inr ((p, n), found) ↦
              rw (up, next_item)
                (rw (found, next_item)
                  (record {
                    unique = λ p' n'. omega (arith, count_for-pick p' n' q.items, inv.unique p' n');
                    own = picked-own q.items p n idle found;
                    token = λ t e. absurd (no_token t e);
                  }))
        ]
      ]

  drop-Inv :
      (q q' : Queue S) (p : String) (n : ℕ)
      → q'.items ≡ drop_item p n q.items
      → current q.worker ≡ some (p, n)
      → ((t : ℕ) → q'.active_cancel ≡ some t → current_token q'.worker ≡ some t)
      → Inv q
      → Inv q'
  drop-Inv q q' p n items busy tokens inv = record {
    unique = λ p' n'. rw items (
        omega
          (arith, inv.unique p' n', count_for-retain-le p' n' (λ i. not (is_for p n i)) q.items));
    own = rw items (dropped-own q.worker q'.worker p n q.items busy inv.own);
    token = tokens;
  }

  advance-Inv : (answers : Answers) (q : Queue S) → Inv q → Inv (advance answers q)
  unfolding advance wake register context_built begin_review end_review
  advance-Inv answers q inv = at_worker q.worker refl
    where
      at_worker : (w : Worker) → q.worker ≡ w → Inv (advance answers q)
      at_worker waiting e = elim (Bool-cases q.notified) [
        | inl awake ↦
            rw (e, advance)
              (rw (awake, wake)
                (rest-Inv q _ refl (sym (ap current e)) refl (λ t h. cc (h, ap current_token e))
                  inv))
        | inr asleep ↦
            rw (e, advance) (rw (asleep, wake) (rest-Inv q _ refl refl refl (λ t h. h) inv))
      ]
      at_worker picking e = rw (e, advance) (next_item-Inv q e inv)
      at_worker (picked p n) e = elim (Bool-cases (contains q.in_flight (mr_key p n))) [
        | inl taken ↦
            rw (e, advance)
              (rw (taken, register)
                (drop-Inv q _ p n refl (ap current e)
                  (λ t h. cc (inv.token t h, ap current_token e)) inv))
        | inr free ↦
            rw (e, advance)
              (rw (free, register)
                (rest-Inv q _ refl (sym (ap current e)) refl (λ t h. cc (h, ap current_token e))
                  inv))
      ]
      at_worker (building p n) e = elim (Bool-cases answers.has_context) [
        | inl ready ↦
            rw (e, advance)
              (rw (ready, context_built)
                (rest-Inv q _ refl (sym (ap current e)) refl (λ t h. cc (h, ap current_token e))
                  inv))
        | inr missing ↦
            rw (e, advance)
              (rw (missing, context_built)
                (rest-Inv q _ refl (sym (ap current e)) refl (λ t h. cc (h, ap current_token e))
                  inv))
      ]
      at_worker (built p n) e =
          rw (e, advance)
            (record {
              unique = inv.unique;
              own = All-map _ _ (λ i f r. sym (ap current e) ∙ f r) q.items inv.own;
              token = λ t h. h;
            })
      at_worker (reviewing p n token) e =
          rw (e, advance)
            (rest-Inv q _ refl (sym (ap current e)) refl (λ t h. sym (ap current_token e) ∙ h) inv)
      at_worker (cleaning p n token) e =
          rw (e, advance)
            (rest-Inv q _ refl (sym (ap current e)) refl (λ t h. sym (ap current_token e) ∙ h) inv)
      at_worker (dropping p n token) e =
          rw (e, advance)
            (drop-Inv q _ p n refl (ap current e) (λ t h. sym (ap current_token e) ∙ inv.token t h)
              inv)
      at_worker (resetting token) e =
          rw (e, advance)
            (record {
              unique = inv.unique;
              own =
                  OwnRunning-of picking q.items
                    (none_running q.worker q.items (ap current e) inv.own);
              token = λ t h. cc h;
            })
      at_worker stopped e = rw (e, advance) inv

  Step-Inv : {q q' : Queue S} → Step q q' → Inv q → Inv q'
  Step-Inv (enqueues p n score {q}) inv = enqueue-Inv p n score q inv
  Step-Inv (cancels p n {q}) inv = cancel-Inv p n q inv
  Step-Inv (advances answers {q}) inv = advance-Inv answers q inv
  Step-Inv (shuts_down {q}) inv = rest-Inv q _ refl refl refl (λ t h. h) inv
  Step-Inv (stops {q} idle down) inv =
      rest-Inv q _ refl (sym (ap current idle)) refl (λ t h. cc (h, ap current_token idle)) inv
  Step-Inv (others_review in_flight {q}) inv = rest-Inv q _ refl refl refl (λ t h. h) inv

  pub Reachable-Inv : {q : Queue S} → Reachable q → Inv q
  Reachable-Inv (starts in_flight) = record {
    unique = λ p n. omega arith;
    own = tt;
    token = λ t h. cc h;
  }
  Reachable-Inv (steps before step) = Step-Inv step (Reachable-Inv before)

  abbrev pub count_running : List (QueueItem S) → ℕ
  count_running [] = 0
  count_running (i ∷ items) =
      let rest = count_running items in if is_running i.status then suc rest else rest

  running-le :
      (worker : Worker) (p : String) (n : ℕ) (items : List (QueueItem S))
      → current worker ≡ some (p, n)
      → OwnRunning worker items
      → count_running items ≤ count_for p n items
  running-le worker p n [] busy own = omega arith
  running-le worker p n (i ∷ items) busy own = elim (Bool-cases (is_running i.status)) [
    | inr rests ↦ rw rests (ground (arith, running-le worker p n items busy own.1))
    | inl runs ↦
        let path : i.project_path ≡ p = cc (busy, own.0 runs) in
        let iid : i.mr_iid ≡ n = cc (busy, own.0 runs) in
        rw runs (ground (arith, running-le worker p n items busy own.1, path, iid))
  ]

  idle-none :
      (items : List (QueueItem S))
      → All (λ i. is_running i.status ≡ false) items
      → count_running items ≡ 0
  idle-none [] h = refl
  idle-none (i ∷ items) h = rw h.0 (idle-none items h.1)

  -- In every reachable state no merge request has two items, at most one item is running, and a
  -- running item is the one that the run loop is busy with.
  pub Reachable-serial :
      (q : Queue S)
      → Reachable q
      → ((p : String) (n : ℕ) → count_for p n q.items ≤ 1)
        × (count_running q.items ≤ 1)
        × All
            (λ i.
              (is_running i.status ≡ false) ⊎ (current q.worker ≡ some (i.project_path, i.mr_iid)))
            q.items
  Reachable-serial q reached =
      let inv = Reachable-Inv reached in
      (
        inv.unique,
        elim (Option-cases (current q.worker)) [
          | inl idle ↦ omega (arith, idle-none q.items (none_running q.worker q.items idle inv.own))
          | inr ((p, n), busy) ↦
              omega (arith, running-le q.worker p n q.items busy inv.own, inv.unique p n)
        ],
        All-map _ _
            (λ i f. elim (Bool-cases (is_running i.status)) [
              | inl runs ↦ inr (f runs)
              | inr rests ↦ inl rests
            ])
            q.items inv.own,
      )

  any-running :
      (p : String) (n : ℕ) (worker : Worker) (items : List (QueueItem S))
      → OwnRunning worker items
      → any (λ i. is_for p n i && is_running i.status) items ≡ true
      → current worker ≡ some (p, n)
  any-running p n worker [] own h = cc h
  any-running p n worker (i ∷ items) own h =
      elim (Bool-cases (is_for p n i && is_running i.status)) [
        | inr other ↦ any-running p n worker items own.1 (rw other at h)
        | inl found ↦
            let path : i.project_path ≡ p = ground (arith, found) in
            let iid : i.mr_iid ≡ n = ground (arith, found) in
            let runs : is_running i.status ≡ true = ground (arith, found) in
            rw (← path, ← iid) (own.0 runs)
      ]

  -- In every reachable state, cancelling a merge request removes its item and leaves those of the
  -- others, and it cancels no review, or else exactly the one under way, if that is a review of this
  -- merge request.
  pub cancel-own :
      (q : Queue S) (p : String) (n : ℕ)
      → Reachable q
      → (count_for p n (cancel p n q).items ≡ 0)
        × ((cancel p n q).items ≡ drop_item p n q.items)
        × (((cancel p n q).cancelled ≡ q.cancelled)
            ⊎ ((t : ℕ) × ((cancel p n q).cancelled ≡ t ∷ q.cancelled)
                × (current q.worker ≡ some (p, n))
                × (current_token q.worker ≡ some t)))
  unfolding cancel cancel_active
  cancel-own q p n reached =
      let inv = Reachable-Inv reached in
      (
        count_for-drop_item p n q.items,
        refl,
        elim (Bool-cases (any (λ i. is_for p n i && is_running i.status) q.items)) [
          | inr idle ↦ inl (rw (idle, cancel_active) refl)
          | inl runs ↦ elim (Option-cases q.active_cancel) [
            | inl absent ↦ inl (rw (runs, cancel_active) (rw (absent, cancel_active) refl))
            | inr (t, active) ↦ inr (
              t,
              rw (runs, cancel_active) (rw (active, cancel_active) refl),
              any-running p n q.worker q.items inv.own runs,
              inv.token t active,
            )
          ]
        ],
      )
