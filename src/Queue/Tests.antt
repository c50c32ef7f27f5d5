-- ===== src/Queue/Tests.antt =====
-- A queue with two merge requests, and the theorems at it.
use Prim.Native.Nat.{compare}
use botto.Prelude.{
  String, ℕ, ◌≡◌, ◌≤◌, refl, [], ◌∷◌, some, true, false, ◌⊎◌, All, ◌&&◌, arith, string_key,
  String_discrete,
}
use botto.Queue.{
  Scores, QueueItem, Queue, building, enqueue, cancel, pick, sort_items, place, before, is_queued,
  is_running, drop_item, reviewing,
}
use botto.Queue.Order.{IsOrdered, count_for}
use botto.Queue.Steps.{
  Answers, enqueues, advances, Reachable, starts, steps, advance, wake, next_item, register, new,
}
use botto.Queue.Invariant.{current, current_token}
use botto.Queue.Safety.{Reachable-serial, cancel-own, count_running}
use botto.Queue.Priority.{
  Waits, Reachable-pick, EnqueueBranches, enqueue-branches, cancel-before_review,
}

-- Whole scores.
abbrev whole : Scores
whole = record { Score = ℕ; partial_cmp = λ a b. some (compare a b) }

whole-IsOrdered : IsOrdered whole
whole-IsOrdered = record {
  asymmetric = λ a b h. ground arith;
  transitive = λ a b c h k. ground arith;
}

abbrev two : Queue whole
two = (enqueue "team/app" 7 90 (enqueue "team/app" 3 20 (new [])).1).1

two-Reachable : Reachable two
two-Reachable = steps (steps (starts []) (enqueues "team/app" 3 20)) (enqueues "team/app" 7 90)

abbrev fine : Answers
fine = record { has_context = true; has_result = true }

-- The run loop builds the context of the first.
abbrev at_building : Queue whole
at_building = advance fine (advance fine (advance fine two))

at_building-Reachable : Reachable at_building
at_building-Reachable =
    steps (steps (steps two-Reachable (advances fine)) (advances fine)) (advances fine)

at_building-worker : at_building.worker ≡ building "team/app" 7
unfolding enqueue sort_items place pick String_discrete advance wake next_item register
at_building-worker = refl

abbrev at_review : Queue whole
at_review = advance fine (advance fine at_building)

at_review-Reachable : Reachable at_review
at_review-Reachable = steps (steps at_building-Reachable (advances fine)) (advances fine)

picks_first : (pick two.items).0 ≡ some ("team/app", 7)
unfolding enqueue sort_items place pick String_discrete
picks_first = refl

Reachable-serial_example :
    ((p : String) (n : ℕ) → count_for p n at_review.items ≤ 1)
    × (count_running at_review.items ≤ 1)
    × All
        (λ i.
          (is_running i.status ≡ false)
          ⊎ (current at_review.worker ≡ some (i.project_path, i.mr_iid)))
        at_review.items
Reachable-serial_example = Reachable-serial at_review at_review-Reachable

cancel-own_example :
    (count_for "team/app" 7 (cancel "team/app" 7 at_review).items ≡ 0)
    × ((cancel "team/app" 7 at_review).items ≡ drop_item "team/app" 7 at_review.items)
    × (((cancel "team/app" 7 at_review).cancelled ≡ at_review.cancelled)
        ⊎ ((t : ℕ) × ((cancel "team/app" 7 at_review).cancelled ≡ t ∷ at_review.cancelled)
            × (current at_review.worker ≡ some ("team/app", 7))
            × (current_token at_review.worker ≡ some t)))
cancel-own_example = cancel-own at_review "team/app" 7 at_review-Reachable

Reachable-pick_example :
    (item : QueueItem whole) × Waits two.items item
    × (item.project_path ≡ "team/app")
    × (item.mr_iid ≡ 7)
    × All (λ i. (is_queued i.status && before i item) ≡ false) two.items
Reachable-pick_example = Reachable-pick whole-IsOrdered two "team/app" 7 two-Reachable picks_first

enqueue-branches_example : EnqueueBranches "team/app" 9 50 two (enqueue "team/app" 9 50 two)
enqueue-branches_example = enqueue-branches "team/app" 9 50 two

cancel-before_review_example :
    (count_for "team/app" 7 (advance fine (advance fine (cancel "team/app" 7 at_building))).items
      ≡ 0)
    × ((advance fine (advance fine (cancel "team/app" 7 at_building))).cancelled
        ≡ at_building.cancelled)
    × ((advance fine (advance fine (cancel "team/app" 7 at_building))).worker
        ≡ reviewing "team/app" 7 at_building.next_token)
cancel-before_review_example =
    cancel-before_review at_building "team/app" 7 fine at_building-Reachable at_building-worker refl
