-- ===== src/Queue/Order.antt =====
-- What the operations on the list of items keep: how many items there are for a merge request, and
-- the order by priority.
use botto.Prelude.{
  ◌⊎◌, String, ℕ, suc, ◌+◌, ◌≤◌, ◌≡◌, refl, Bool, true, false, List, [], ◌∷◌, ◌++◌, string_key,
  arith, if◌then◌else◌, any, retain, All, All-map, All-retain, Bool-cases, inl, inr,
}
use mathlib.Core.List.{Perm}
use mathlib.Core.List.Perm
use botto.Queue.{
  Scores, QueueItem, running, is_for, is_queued, before, place, sort_items, drop_item, pick,
}

module _ {S : Scores} where
  -- How many items there are for a merge request.
  abbrev pub count_for : String → ℕ → List (QueueItem S) → ℕ
  count_for project_path mr_iid [] = 0
  count_for project_path mr_iid (i ∷ items) =
      let rest = count_for project_path mr_iid items in
      if is_for project_path mr_iid i then suc rest else rest

  abbrev mark : QueueItem S → QueueItem S
  mark i = record i { status = running }

  module _ (p : String) (n : ℕ) where
    count_for-place :
        (i : QueueItem S) (items : List (QueueItem S))
        → count_for p n (place i items) ≡ count_for p n (i ∷ items)
    unfolding place
    count_for-place i [] = refl
    count_for-place i (j ∷ items) = elim (Bool-cases (before j i)) [
      | inl later ↦ rw later (ground (arith, count_for-place i items))
      | inr here ↦ rw here refl
    ]

    pub count_for-sort_items :
        (items : List (QueueItem S)) → count_for p n (sort_items items) ≡ count_for p n items
    unfolding sort_items
    count_for-sort_items [] = refl
    count_for-sort_items (i ∷ items) =
        ground (arith, count_for-place i (sort_items items), count_for-sort_items items)

    pub count_for-append :
        (items more : List (QueueItem S))
        → count_for p n (items ++ more) ≡ count_for p n items + count_for p n more
    count_for-append [] more = omega arith
    count_for-append (i ∷ items) more = ground (arith, count_for-append items more)

    pub count_for-none :
        (items : List (QueueItem S)) → any (is_for p n) items ≡ false → count_for p n items ≡ 0
    count_for-none [] h = refl
    count_for-none (i ∷ items) h = ground (arith, count_for-none items)

    pub count_for-retain-le :
        (keep : QueueItem S → Bool) (items : List (QueueItem S))
        → count_for p n (retain keep items) ≤ count_for p n items
    count_for-retain-le keep [] = omega arith
    count_for-retain-le keep (i ∷ items) = elim (Bool-cases (keep i)) [
      | inl kept ↦ rw kept (ground (arith, count_for-retain-le keep items))
      | inr dropped ↦ rw dropped (ground (arith, count_for-retain-le keep items))
    ]

    pub count_for-drop_item : (items : List (QueueItem S)) → count_for p n (drop_item p n items) ≡ 0
    count_for-drop_item [] = refl
    count_for-drop_item (i ∷ items) = elim (Bool-cases (is_for p n i)) [
      | inl same ↦ rw same (count_for-drop_item items)
      | inr other ↦ rw other (rw other (count_for-drop_item items))
    ]

    pub count_for-pick :
        (items : List (QueueItem S)) → count_for p n (pick items).1 ≡ count_for p n items
    unfolding pick
    count_for-pick [] = refl
    count_for-pick (i ∷ items) = elim (Bool-cases (is_queued i.status)) [
      | inl first ↦ rw first refl
      | inr skipped ↦ rw skipped (ground (arith, count_for-pick items))
    ]

  All-place :
      (P : QueueItem S → Type 0) (i : QueueItem S) (items : List (QueueItem S))
      → P i
      → All P items
      → All P (place i items)
  unfolding place
  All-place P i [] h hs = (h, tt)
  All-place P i (j ∷ items) h hs = elim (Bool-cases (before j i)) [
    | inl later ↦ rw later (hs.0, All-place P i items h hs.1)
    | inr here ↦ rw here (h, hs)
  ]

  pub All-sort_items :
      (P : QueueItem S → Type 0) (items : List (QueueItem S))
      → All P items
      → All P (sort_items items)
  unfolding sort_items
  All-sort_items P [] h = tt
  All-sort_items P (i ∷ items) h = All-place P i (sort_items items) h.0 (All-sort_items P items h.1)

  -- No item has a higher score than one before it.
  abbrev pub Descending : List (QueueItem S) → Type 0
  Descending [] = Unit
  Descending (i ∷ items) = All (λ j. before j i ≡ false) items × Descending items

  pub Descending-retain :
      (keep : QueueItem S → Bool) (items : List (QueueItem S))
      → Descending items
      → Descending (retain keep items)
  Descending-retain keep [] h = tt
  Descending-retain keep (i ∷ items) h = elim (Bool-cases (keep i)) [
    | inl kept ↦ rw kept (All-retain _ keep items h.0, Descending-retain keep items h.1)
    | inr dropped ↦ rw dropped (Descending-retain keep items h.1)
  ]

  All-pick :
      (P : QueueItem S → Type 0)
      → ((j : QueueItem S) → P j → P (mark j))
      → (items : List (QueueItem S)) → All P items
      → All P (pick items).1
  unfolding pick
  All-pick P f [] h = tt
  All-pick P f (j ∷ items) h = elim (Bool-cases (is_queued j.status)) [
    | inl first ↦ rw first (f j h.0, h.1)
    | inr skipped ↦ rw skipped (h.0, All-pick P f items h.1)
  ]

  pub Descending-pick : (items : List (QueueItem S)) → Descending items → Descending (pick items).1
  unfolding pick
  Descending-pick [] h = tt
  Descending-pick (i ∷ items) h = elim (Bool-cases (is_queued i.status)) [
    | inl first ↦ rw first (h.0, h.1)
    | inr skipped ↦ rw skipped (All-pick _ (λ j h. h) items h.0, Descending-pick items h.1)
  ]

-- The scores are ordered as numbers are: no score is not a number.
pub record IsOrdered (S : Scores) : Type 0 where
  pub asymmetric : (a b : QueueItem S) → before a b ≡ true → before b a ≡ false
  pub transitive :
      (a b c : QueueItem S) → before b a ≡ false → before c b ≡ false → before c a ≡ false

module _ {S : Scores} (ordered : IsOrdered S) where
  Descending-place :
      (i : QueueItem S) (items : List (QueueItem S)) → Descending items → Descending (place i items)
  unfolding place
  Descending-place i [] h = (tt, tt)
  Descending-place i (j ∷ items) h = elim (Bool-cases (before j i)) [
    | inl later ↦
        rw later
          (All-place _ i items (ordered.asymmetric j i later) h.0, Descending-place i items h.1)
    | inr here ↦
        rw here ((here, All-map _ _ (λ k less. ordered.transitive i j k here less) items h.0), h)
  ]

  pub sort_items-Descending : (items : List (QueueItem S)) → Descending (sort_items items)
  unfolding sort_items
  sort_items-Descending [] = tt
  sort_items-Descending (i ∷ items) =
      Descending-place i (sort_items items) (sort_items-Descending items)

-- What sorting and searching make of the items of a list.
module _ {S : Scores} where
  place-Perm :
      (item : QueueItem S) (items : List (QueueItem S)) → Perm (place item items) (item ∷ items)
  unfolding place
  place-Perm item [] = Perm.refl (item ∷ [])
  place-Perm item (other ∷ items) = elim (Bool-cases (before other item)) [
    | inl later ↦
        rw later (Perm.trans (Perm.cons other (place-Perm item items)) (Perm.swap item other items))
    | inr here ↦ rw here (Perm.refl (item ∷ other ∷ items))
  ]

  pub sort_items-Perm : (items : List (QueueItem S)) → Perm (sort_items items) items
  unfolding sort_items
  sort_items-Perm [] = Perm.refl []
  sort_items-Perm (item ∷ items) =
      Perm.trans (place-Perm item (sort_items items)) (Perm.cons item (sort_items-Perm items))

  -- Some item of the list is for the merge request.
  abbrev pub HasItem : String → ℕ → List (QueueItem S) → Type 0
  HasItem p n [] = ⊥
  HasItem p n (item ∷ items) = ((item.project_path ≡ p) × (item.mr_iid ≡ n)) ⊎ HasItem p n items

  pub any-HasItem :
      (p : String) (n : ℕ) (items : List (QueueItem S))
      → any (is_for p n) items ≡ true
      → HasItem p n items
  any-HasItem p n [] h = cc h
  any-HasItem p n (item ∷ items) h = elim (Bool-cases (is_for p n item)) [
    | inl same ↦ inl (ground (arith, same), ground (arith, same))
    | inr other ↦ inr (any-HasItem p n items (ground (arith, other, h)))
  ]

  pub HasItem-any :
      (p : String) (n : ℕ) (items : List (QueueItem S))
      → HasItem p n items
      → any (is_for p n) items ≡ true
  HasItem-any p n [] h = absurd h
  HasItem-any p n (item ∷ items) (inl (path, iid)) = ground (arith, path, iid)
  HasItem-any p n (item ∷ items) (inr later) = ground (arith, HasItem-any p n items later)
