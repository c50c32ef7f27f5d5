-- ===== src/Workflow/Dag/Counting.antt =====
-- Comparing lists by how often each element stands in them.
use native.Mathlib.Decide.{dec_lt}
use botto.Prelude.{
  suc, ◌+◌, ◌≤◌, ◌<◌, ◌≡◌, refl, List, [], ◌∷◌, Key, length, contains, count, true, false, ite,
  arith,
}

module _ {K : Type 0} ⦃key : Key K⦄ where
  -- Drops the first occurrence.
  without : K → List K → List K
  without a [] = []
  without a (x ∷ xs) = ite (key.dec x a) xs (x ∷ without a xs)

  count-without :
      (a b : K) (xs : List K)
      → 0 < count a xs
      → count b (without a xs) + ite (key.dec a b) 1 0 ≡ count b xs
  unfolding without
  count-without a b [] h = absurd (omega arith)
  count-without a b (x ∷ xs) h = ground (arith, count-without a b xs)

  length-without : (a : K) (xs : List K) → 0 < count a xs → suc (length (without a xs)) ≡ length xs
  unfolding without
  length-without a [] h = absurd (omega arith)
  length-without a (x ∷ xs) h = ground (arith, length-without a xs)

  -- A list that holds nothing more often than another is no longer.
  pub length-le_of_count-le :
      (xs ys : List K) → ((a : K) → count a xs ≤ count a ys) → length xs ≤ length ys
  length-le_of_count-le [] ys h = omega arith
  length-le_of_count-le (x ∷ xs) ys h =
      let present : 0 < count x ys = ground (arith, h x) in
      omega (
        arith,
        length-without x ys present,
        length-le_of_count-le xs (without x ys)
            (λ a. ground (arith, h a, count-without x a ys present)),
      )

  -- If it is as long too, it holds everything as often.
  pub count-eq_of_length-eq :
      (xs ys : List K)
      → ((a : K) → count a xs ≤ count a ys)
      → length ys ≡ length xs
      → (a : K) → count a xs ≡ count a ys
  count-eq_of_length-eq xs ys h same a = elim (dec_lt (count a xs) (count a ys)) [
    | yes less ↦
        let longer = length-le_of_count-le (a ∷ xs) ys (λ b. ground (arith, h b, less)) in
        absurd (omega (arith, longer))
    | no more ↦ omega (arith, h a)
  ]

  pub contains_of_count : (a : K) (xs : List K) → 0 < count a xs → contains xs a ≡ true
  contains_of_count a [] h = absurd (omega arith)
  contains_of_count a (x ∷ xs) h = ground (arith, contains_of_count a xs)

  pub not-contains_of_count : (a : K) (xs : List K) → count a xs ≡ 0 → contains xs a ≡ false
  not-contains_of_count a [] h = refl
  not-contains_of_count a (x ∷ xs) h = ground (arith, not-contains_of_count a xs)

  pub count_of_contains : (a : K) (xs : List K) → contains xs a ≡ true → 0 < count a xs
  count_of_contains a [] h = cc
  count_of_contains a (x ∷ xs) h = ground (arith, count_of_contains a xs)
