-- ===== src/Cluster/Hunks.antt =====
-- When two hunks overlap.
use native.Mathlib.Decide.{dec_le}
use botto.Prelude.{◌↔◌, ℕ, ◌+◌, ◌≤◌, ◌<◌, ◌≡◌, true, ◌^◌, arith}
use botto.Cluster.{DiffHunk, hunks_overlap, wrap}

-- The line is among those of the old file that the hunk replaces.
abbrev pub Covers : DiffHunk → ℕ → Type 0
Covers h line = (h.old_start ≤ line) × (line < h.old_start + h.old_count)

-- The lines of the hunk are numbered by 32 bits.
abbrev pub Fits : DiffHunk → Type 0
Fits h = h.old_start + h.old_count < 2 ^ 32

wrap-small : (n : ℕ) → n < 2 ^ 32 → wrap n ≡ n
wrap-small n h = omega arith

hunks_overlap_sound :
    (a b : DiffHunk)
    → Fits a
    → Fits b
    → hunks_overlap a b ≡ true
    → (line : ℕ) × Covers a line × Covers b line
unfolding hunks_overlap
hunks_overlap_sound a b fa fb e =
    let wa = wrap-small (a.old_start + a.old_count) fa in
    let wb = wrap-small (b.old_start + b.old_count) fb in
    elim (dec_le a.old_start b.old_start) [
      | yes first ↦
          (b.old_start, ground (arith, wa, wb, e, first), ground (arith, wa, wb, e, first))
      | no later ↦ (a.old_start, ground (arith, wa, wb, e, later), ground (arith, wa, wb, e, later))
    ]

hunks_overlap_complete :
    (a b : DiffHunk) (line : ℕ)
    → Fits a
    → Fits b
    → Covers a line
    → Covers b line
    → hunks_overlap a b ≡ true
unfolding hunks_overlap
hunks_overlap_complete a b line fa fb ca cb =
    let wa = wrap-small (a.old_start + a.old_count) fa in
    let wb = wrap-small (b.old_start + b.old_count) fb in ground (arith, wa, wb, ca, cb)

-- Two hunks whose lines are numbered by 32 bits overlap exactly if there is a line of the old file
-- that both replace.
pub hunks_overlap-line :
    (a b : DiffHunk)
    → Fits a
    → Fits b
    → (hunks_overlap a b ≡ true) ↔ ((line : ℕ) × Covers a line × Covers b line)
hunks_overlap-line a b fa fb =
    (hunks_overlap_sound a b fa fb, λ (line, ca, cb). hunks_overlap_complete a b line fa fb ca cb)
