-- ===== src/Queue/Priority.antt =====
-- The order in which merge requests are reviewed, and what a request to enqueue one answers.
use botto.Prelude.{
  String, ℕ, ◌≡◌, refl, sym, subst, ap, ◌∙◌, true, false, ◌&&◌, List, [], ◌∷◌, ◌++◌, none, some,
  string_key, arith, any, All, All-map, Bool-cases, Option-cases, inl, inr, ◌⊎◌, contains, ok, err,
  Result,
}
use mathlib.Core.List.{Perm, perm_append_singleton}
use mathlib.Core.List.Perm
use botto.Queue.{
  Scores, QueueItem, is_for, is_queued, is_running, queued, before, pick, Queue, Worker, waiting,
  picking, picked, building, built, reviewing, cleaning, dropping, resetting, stopped, enqueue,
  cancel, EnqueueError, review_started, row_written, cancel_active, mr_key, already_queued,
  review_in_flight,
}
use botto.Queue.Order.{
  count_for, count_for-drop_item, sort_items-Perm, HasItem, any-HasItem, HasItem-any, Descending,
  Descending-retain, Descending-pick, IsOrdered, sort_items-Descending,
}
use botto.Queue.Steps.{
  Step, enqueues, cancels, advances, shuts_down, stops, others_review, Reachable, starts, steps,
  Answers, advance, wake, next_item, register, context_built, begin_review, end_review,
}
use botto.Queue.Safety.{Reachable-Inv}

module _ {S : Scores} where
  enqueue-Descending :
      (ordered : IsOrdered S) (p : String) (n : ℕ) (score : S.Score) (q : Queue S)
      → Descending q.items
      → Descending (enqueue p n score q).1.items
  unfolding enqueue
  enqueue-Descending ordered p n score q h = elim (Bool-cases (any (is_for p n) q.items)) [
    | inl twice ↦ rw (twice, enqueue) h
    | inr fresh ↦ elim (Bool-cases (contains q.in_flight (mr_key p n))) [
      | inl reviewed ↦ rw (fresh, enqueue) (rw (reviewed, enqueue) h)
      | inr idle ↦ rw (fresh, enqueue) (rw (idle, enqueue) (sort_items-Descending ordered _))
    ]
  ]

  next_item-Descending : (q : Queue S) → Descending q.items → Descending (next_item q).items
  unfolding next_item
  next_item-Descending q h = elim (Bool-cases q.shutdown) [
    | inl down ↦ rw (down, next_item) h
    | inr up ↦ elim (Option-cases (pick q.items).0) [
      | inl empty ↦ rw (up, next_item) (rw (empty, next_item) h)
      | inr (_, found) ↦ rw (up, next_item) (rw (found, next_item) (Descending-pick q.items h))
    ]
  ]

  advance-Descending :
      (answers : Answers) (q : Queue S) → Descending q.items → Descending (advance answers q).items
  unfolding advance wake register context_built begin_review end_review
  advance-Descending answers q h = at_worker q.worker refl
    where
      at_worker : (w : Worker) → q.worker ≡ w → Descending (advance answers q).items
      at_worker waiting e = elim (Bool-cases q.notified) [
        | inl awake ↦ rw (e, advance) (rw (awake, wake) h)
        | inr asleep ↦ rw (e, advance) (rw (asleep, wake) h)
      ]
      at_worker picking e = rw (e, advance) (next_item-Descending q h)
      at_worker (picked p n) e = elim (Bool-cases (contains q.in_flight (mr_key p n))) [
        | inl taken ↦ rw (e, advance) (rw (taken, register) (Descending-retain _ q.items h))
        | inr free ↦ rw (e, advance) (rw (free, register) h)
      ]
      at_worker (building p n) e = elim (Bool-cases answers.has_context) [
        | inl ready ↦ rw (e, advance) (rw (ready, context_built) h)
        | inr missing ↦ rw (e, advance) (rw (missing, context_built) h)
      ]
      at_worker (built p n) e = rw (e, advance) h
      at_worker (reviewing p n token) e = rw (e, advance) h
      at_worker (cleaning p n token) e = rw (e, advance) h
      at_worker (dropping p n token) e = rw (e, advance) (Descending-retain _ q.items h)
      at_worker (resetting token) e = rw (e, advance) h
      at_worker stopped e = rw (e, advance) h

  cancel-Descending :
      (p : String) (n : ℕ) (q : Queue S) → Descending q.items → Descending (cancel p n q).items
  unfolding cancel
  cancel-Descending p n q h = Descending-retain _ q.items h

  Reachable-Descending : (ordered : IsOrdered S) {q : Queue S} → Reachable q → Descending q.items
  Reachable-Descending ordered (starts in_flight) = tt
  Reachable-Descending ordered (steps {q} before step) =
      go q (Reachable-Descending ordered before) step
    where
      go : (q : Queue S) {q' : Queue S} → Descending q.items → Step q q' → Descending q'.items
      go q h (enqueues p n score) = enqueue-Descending ordered p n score q h
      go q h (cancels p n) = cancel-Descending p n q h
      go q h (advances answers) = advance-Descending answers q h
      go q h shuts_down = h
      go q h (stops idle down) = h
      go q h (others_review in_flight) = h

  -- An item of the list that waits.
  abbrev pub Waits : List (QueueItem S) → QueueItem S → Type 0
  Waits [] item = ⊥
  Waits (i ∷ items) item = ((i ≡ item) × (is_queued i.status ≡ true)) ⊎ Waits items item

  pick-highest :
      (items : List (QueueItem S)) (p : String) (n : ℕ)
      → (pick items).0 ≡ some (p, n)
      → ((a : QueueItem S) → before a a ≡ false)
      → Descending items
      → (item : QueueItem S) × Waits items item
        × (item.project_path ≡ p)
        × (item.mr_iid ≡ n)
        × All (λ i. (is_queued i.status && before i item) ≡ false) items
  unfolding pick
  pick-highest [] p n e irreflexive h = cc e
  pick-highest (i ∷ items) p n e irreflexive h = elim (Bool-cases (is_queued i.status)) [
    | inl first ↦
        let same : (i.project_path ≡ p) × (i.mr_iid ≡ n) = ground (arith, rw first at e) in
        (
          i,
          inl (refl, first),
          same.0,
          same.1,
          (ground (arith, irreflexive i), All-map _ _ (λ j less. ground (arith, less)) items h.0),
        )
    | inr skipped ↦
        let (item, waits, path, iid, highest) =
          pick-highest items p n (rw skipped at e) irreflexive h.1 in
        (item, inr waits, path, iid, (rw skipped refl, highest))
  ]

  irreflexive_of : IsOrdered S → (a : QueueItem S) → before a a ≡ false
  irreflexive_of ordered a = elim (Bool-cases (before a a)) [
    | inl yes_before ↦ ordered.asymmetric a a yes_before
    | inr not_before ↦ not_before
  ]

  -- If scores compare as numbers do, then in every reachable state the merge request that the run
  -- loop picks next is one that waits, and none that waits has a higher score.
  pub Reachable-pick :
      (ordered : IsOrdered S) (q : Queue S) (p : String) (n : ℕ)
      → Reachable q
      → (pick q.items).0 ≡ some (p, n)
      → (item : QueueItem S) × Waits q.items item
        × (item.project_path ≡ p)
        × (item.mr_iid ≡ n)
        × All (λ i. (is_queued i.status && before i item) ≡ false) q.items
  Reachable-pick ordered q p n reached e =
      pick-highest q.items p n e (irreflexive_of ordered) (Reachable-Descending ordered reached)

  -- The item of a new request.
  abbrev pub new_item : String → ℕ → S.Score → QueueItem S
  new_item p n score = record {
    project_path = p;
    mr_iid = n;
    priority_score = score;
    status = queued;
  }

  -- What a request to enqueue comes to.
  abbrev pub EnqueueBranches :
      String → ℕ → S.Score → Queue S → Result EnqueueError Unit × Queue S → Type 0
  EnqueueBranches p n score q (answer, q') =
      (HasItem p n q.items × (answer ≡ err already_queued) × (q' ≡ q))
      ⊎ ((¬ HasItem p n q.items)
          × (contains q.in_flight (mr_key p n) ≡ true)
          × (answer ≡ err review_in_flight)
          × (q' ≡ q))
      ⊎ ((¬ HasItem p n q.items)
          × (contains q.in_flight (mr_key p n) ≡ false)
          × (answer ≡ ok tt)
          × Perm q'.items (new_item p n score ∷ q.items)
          × (q' ≡ record q {
            items = q'.items;
            notified = true;
            log = review_started p n ∷ row_written p n ∷ q.log;
          }))

  -- A merge request that has an item is refused as queued; else one whose review is in flight is
  -- refused as such, and nothing changes then; else the items are, in some order, those from before
  -- and a queued one for the merge request with its score, its row is written and the start of its
  -- review told, the run loop is notified, and nothing else changes.
  pub enqueue-branches :
      (p : String) (n : ℕ) (score : S.Score) (q : Queue S)
      → EnqueueBranches p n score q (enqueue p n score q)
  unfolding enqueue
  enqueue-branches p n score q = elim (Bool-cases (any (is_for p n) q.items)) [
    | inl twice ↦ rw (twice, enqueue) (inl (any-HasItem p n q.items twice, refl, refl))
    | inr fresh ↦
        let none_has : ¬ HasItem p n q.items =
          λ h. absurd (cc (fresh, HasItem-any p n q.items h)) in
        elim (Bool-cases (contains q.in_flight (mr_key p n))) [
          | inl reviewed ↦
              subst (EnqueueBranches p n score q)
                (sym (rw (fresh, enqueue) (rw (reviewed, enqueue) refl)))
                (inr (inl (none_has, reviewed, refl, refl)))
          | inr idle ↦
              subst (EnqueueBranches p n score q)
                (sym (rw (fresh, enqueue) (rw (idle, enqueue) refl)))
                (inr (
                  inr (
                    none_has,
                    idle,
                    refl,
                    Perm.trans (sort_items-Perm (q.items ++ new_item p n score ∷ []))
                        (perm_append_singleton (new_item p n score) q.items),
                    refl,
                  )))
        ]
  ]

  cancel_active-none :
      (p : String) (n : ℕ) (q : Queue S) → q.active_cancel ≡ none → cancel_active p n q ≡ q
  unfolding cancel_active
  cancel_active-none p n q none_active =
      elim (Bool-cases (any (λ i. is_for p n i && is_running i.status) q.items)) [
        | inl runs ↦ rw (runs, cancel_active) (cc none_active)
        | inr rests ↦ rw (rests, cancel_active) refl
      ]

  from_building :
      (q : Queue S) (p : String) (n : ℕ) (answers : Answers)
      → q.worker ≡ building p n
      → answers.has_context ≡ true
      → let q' = advance answers (advance answers q) in
        (q'.items ≡ q.items)
        × (q'.cancelled ≡ q.cancelled)
        × (q'.worker ≡ reviewing p n q.next_token)
  unfolding advance context_built begin_review
  from_building q p n answers busy ready =
      let first : advance answers q ≡ record q { worker = built p n } =
        rw (busy, advance) (rw (ready, context_built) refl) in
      rw first (refl, refl, refl)

  -- While the context of a merge request is being built, cancelling it takes its item away but
  -- cancels no review: two steps of the run loop later it has no item, and its review has begun
  -- nevertheless, with no other token cancelled than before.
  pub cancel-before_review :
      (q : Queue S) (p : String) (n : ℕ) (answers : Answers)
      → Reachable q
      → q.worker ≡ building p n
      → answers.has_context ≡ true
      → let q' = advance answers (advance answers (cancel p n q)) in
        (count_for p n q'.items ≡ 0)
        × (q'.cancelled ≡ q.cancelled)
        × (q'.worker ≡ reviewing p n q.next_token)
  unfolding cancel
  cancel-before_review q p n answers reached busy ready =
      let no_token : q.active_cancel ≡ none = elim (Option-cases q.active_cancel) [
        | inl absent ↦ absent
        | inr (t, active) ↦ cc ((Reachable-Inv reached).token t active, busy)
      ] in
      let same = cancel_active-none p n q no_token in
      let (kept, cancelled, review) =
        from_building (cancel p n q) p n answers (ap (λ (x : Queue S). x.worker) same ∙ busy)
          ready in
      (
        ap (count_for p n) kept ∙ count_for-drop_item p n q.items,
        cancelled ∙ ap (λ (x : Queue S). x.cancelled) same,
        review ∙ ap (λ (x : Queue S). reviewing p n x.next_token) same,
      )
