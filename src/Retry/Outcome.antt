-- ===== src/Retry/Outcome.antt =====
-- Which attempt decides, and how long the waits before it are.
use native.Mathlib.Decide.{ℕ_discrete}
use botto.Prelude.{
  ℕ, zero, suc, ◌+◌, ◌≡◌, ◌≤◌, ◌<◌, refl, sym, ap, ◌∙◌, subst, Bool, true, false, List, [], ◌∷◌,
  Option, Result, ok, err, Bool-cases, inl, inr, ◌⊎◌, arith,
}
use botto.Retry.{refuses, delay_after, retry_from, with_retry}

module _ {T E : Type 0} (f : ℕ → Result E T) (base_delay : ℕ)
    (should_retry : Option (E → Bool)) where
  -- The attempt fails with an error after which there is another one.
  abbrev pub GoesOn : ℕ → Type 0
  GoesOn j = (e : E) × (f j ≡ err e) × (refuses should_retry e ≡ false)

  -- The waits after the attempts from `first` on, of which there are `n`.
  abbrev pub waits : (first n : ℕ) → List ℕ
  waits first zero = []
  waits first (suc n) = delay_after base_delay first ∷ waits (first + 1) n

  -- Of the attempts from `first` to `last`, the k-th after `first` decides: those before it fail with
  -- an error after which there is another, and it is the last one, or succeeds, or fails with an error
  -- that is not retried.
  pub record Decided (first last : ℕ) (r : Result E T × List ℕ) : Type 0 where
    pub k : ℕ
    pub le : first + k ≤ last
    pub before : (j : ℕ) → first ≤ j → j < first + k → GoesOn j
    pub result : r.0 ≡ f (first + k)
    pub wait : r.1 ≡ waits first k
    pub why :
        (first + k ≡ last)
        ⊎ ((val : T) × (r.0 ≡ ok val))
        ⊎ ((e : E) × (r.0 ≡ err e) × (refuses should_retry e ≡ true))

  Result-cases : (r : Result E T) → ((val : T) × (r ≡ ok val)) ⊎ ((e : E) × (r ≡ err e))
  Result-cases (ok val) = inl (val, refl)
  Result-cases (err e) = inr (e, refl)

  retry_from-Decided :
      (left attempt : ℕ)
      → Decided attempt (attempt + left) (retry_from f base_delay should_retry left attempt)
  unfolding retry_from
  retry_from-Decided zero attempt = record {
    k = 0;
    le = omega arith;
    before = λ j low high. absurd (omega arith);
    result = ap f (omega arith);
    wait = refl;
    why = inl (omega arith);
  }
  retry_from-Decided (suc left) attempt = elim (Result-cases (f attempt)) [
    | inl (val, good) ↦
        rw (good, retry_from)
          (record {
            k = 0;
            le = omega arith;
            before = λ j low high. absurd (omega arith);
            result = sym good ∙ ap f (omega arith);
            wait = refl;
            why = inr (inl (val, refl));
          })
    | inr (e, bad) ↦ elim (Bool-cases (refuses should_retry e)) [
      | inl stop ↦
          rw (bad, retry_from)
            (rw (stop, retry_from)
              (record {
                k = 0;
                le = omega arith;
                before = λ j low high. absurd (omega arith);
                result = sym bad ∙ ap f (omega arith);
                wait = refl;
                why = inr (inr (e, refl, stop));
              }))
      | inr again ↦
          let d = retry_from-Decided left (attempt + 1) in
          rw (bad, retry_from)
            (rw (again, retry_from)
              (record {
                k = suc (d.k);
                le = omega (arith, d.le);
                before = λ j low high.
                    from_first j low (e, bad, again)
                      (λ low'. d.before j low' (omega (arith, high)));
                result = d.result ∙ ap f (omega arith);
                wait = ap (λ ws. delay_after base_delay attempt ∷ ws) d.wait;
                why = elim d.why [
                  | inl final ↦ inl (omega (arith, final))
                  | inr settled ↦ inr settled
                ];
              }))
    ]
  ]
    where
      from_first : (j : ℕ) → attempt ≤ j → GoesOn attempt → (attempt + 1 ≤ j → GoesOn j) → GoesOn j
      from_first j low g later = elim (ℕ_discrete j attempt) [
        | yes same ↦ subst GoesOn (sym same) g
        | no other ↦ later (omega arith)
      ]

  -- Some attempt k, with k at most max_retries, decides: all before it fail with an error that is
  -- retried, the result is that of k, and k is the last one allowed, or succeeds, or fails with an
  -- error that is not retried. Before it there are k waits, the one after
  -- attempt j of 2 ^ j base delays, with the power on 32 bits.
  pub with_retry-Decided :
      (max_retries : ℕ) → Decided 0 max_retries (with_retry f max_retries base_delay should_retry)
  unfolding with_retry
  with_retry-Decided max_retries =
      subst (λ last. Decided 0 last (retry_from f base_delay should_retry max_retries 0))
        (omega arith) (retry_from-Decided max_retries 0)
