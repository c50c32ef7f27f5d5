-- ===== src/Retry/Tests.antt =====
-- An operation that fails twice.
use botto.Prelude.{ℕ, Bool, true, some, Result, ok, err, if◌then◌else◌, ltb, String}
use botto.Retry.{with_retry}
use botto.Retry.Outcome.{Decided, with_retry-Decided}

abbrev flaky : ℕ → Result String ℕ
flaky attempt = if ltb attempt 2 then err "busy" else ok 5

abbrev always : String → Bool
always e = true

with_retry-Decided_example :
    Decided flaky 10 (some always) 0 3 (with_retry flaky 3 10 (some always))
with_retry-Decided_example = with_retry-Decided flaky 10 (some always) 3
