-- ===== src/Workflow/Step/Backoff.antt =====
-- The waits between two attempts at a step (`compute_backoff` of
-- src/services/workflow/orchestrator.rs).
use Prim.Native.Nat.{min}
use native.Mathlib.Decide.{dec_le}
use botto.Prelude.{ℕ, zero, suc, ◌+◌, ◌-◌, ◌*◌, ◌^◌, ◌≤◌, ◌≡◌, refl, arith}
use botto.Workflow.Types.{RetryPolicy, exponential}
use botto.Workflow.Step.{compute_backoff, compute_backoff_static, u64_max}

-- The two copies of the function agree.
pub compute_backoff-static :
    (policy : RetryPolicy) (attempt : ℕ)
    → compute_backoff_static policy attempt ≡ compute_backoff policy attempt
unfolding compute_backoff compute_backoff_static
compute_backoff-static policy attempt = refl

-- Saturation at a bound does not show under a minimum with a number below it.
saturate_min : (b p bound m : ℕ) → m ≤ bound → min (min (b * min p bound) bound) m ≡ min (b * p) m
saturate_min zero p bound m h = omega arith
saturate_min (suc b) p bound m h = elim (dec_le p bound) [
  | yes small ↦ grind arith
  | no large ↦ grind arith
]

-- The wait before retry k + 1 is base * 2 ^ k seconds, and at most max_secs: the saturation of the
-- machine arithmetic never shows, for every limit that fits 64 bits.
pub compute_backoff-exponential :
    (policy : RetryPolicy) (base_secs max_secs k : ℕ)
    → policy.backoff ≡ exponential base_secs max_secs
    → max_secs ≤ u64_max
    → compute_backoff policy (k + 1) ≡ min (base_secs * 2 ^ k) max_secs
unfolding compute_backoff
compute_backoff-exponential policy base_secs max_secs k e h =
    let back : k + 1 - 1 ≡ k = omega arith in
    rw (e, compute_backoff) (rw back (saturate_min base_secs (2 ^ k) u64_max max_secs h))
