-- ===== src/Retry.antt =====
-- Retrying an operation with exponential backoff (`with_retry` of src/util/retry.rs).
pub mod Outcome
mod Tests
use botto.Prelude.{
  ℕ, zero, suc, ◌+◌, ◌*◌, ◌^◌, ◌%◌, ◌≡◌, Bool, true, false, not, List, [], ◌∷◌, Option, none, some,
  if◌then◌else◌, ◌==◌, Result, ok, err,
}

-- Whether the predicate, if there is one, refuses a further attempt.
abbrev pub refuses : {E : Type 0} → Option (E → Bool) → E → Bool
refuses none e = false
refuses (some predicate) e = not (predicate e)

-- `base_delay * 2u32.pow(attempt)`, where the power wraps as in a build without overflow checks (with
-- them it panics from the attempt 32 on). The product, a `Duration`, has no bound here: the panic of a
-- product beyond 2 ^ 64 seconds is not modelled.
abbrev pub delay_after : ℕ → ℕ → ℕ
delay_after base_delay attempt = base_delay * (2 ^ attempt % 2 ^ 32)

module _ {T E : Type 0} where
  -- The loop `for attempt in 0..=max_retries` from an attempt on, with the number of those that are
  -- left after it. `f` gives the outcome of each attempt. The result comes with the waits, in the
  -- unit of the base delay. The error that stands for a loop without any attempt cannot occur, since
  -- the last attempt returns.
  unfoldable pub retry_from :
      (ℕ → Result E T) → ℕ → Option (E → Bool) → (left attempt : ℕ) → Result E T × List ℕ
  retry_from f base_delay should_retry zero attempt = (f attempt, [])
  retry_from f base_delay should_retry (suc left) attempt =
      let (result, waits) = retry_from f base_delay should_retry left (attempt + 1) in
      elim (f attempt) [
        | ok val ↦ (ok val, [])
        | err e ↦
            if refuses should_retry e
            then (err e, [])
            else (result, delay_after base_delay attempt ∷ waits)
      ]

  unfoldable pub with_retry : (ℕ → Result E T) → ℕ → ℕ → Option (E → Bool) → Result E T × List ℕ
  with_retry f max_retries base_delay should_retry =
      retry_from f base_delay should_retry max_retries 0
