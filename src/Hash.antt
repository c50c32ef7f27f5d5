-- ===== src/Hash.antt =====
-- Hashes of diffs and the files that an incremental review looks at again (src/util/hash.rs, and
-- `changed_files` of src/services/review/cache.rs).
pub mod Digits
pub mod Changed
mod Tests
use mathlib.Core.List.{reverse}
use botto.Prelude.{
  String, ℕ, zero, suc, ◌+◌, ◌*◌, ◌%◌, ◌/◌, ◌^◌, ◌<◌, ◌≡◌, Bool, true, false, List, [], ◌∷◌, ◌++◌,
  Option, none, some, String_discrete, string_key, if◌then◌else◌, ite, ltb, ◌==◌, ◌<>◌, All,
}
use botto.Prelude.Maps.{lookup, insert}

-- `str::bytes` and `String::from_utf8`, which go back and forth on ASCII.
pub record Utf8 : Type 0 where
  pub bytes : String → List ℕ
  pub from_utf8 : List ℕ → String
  pub bytes-from_utf8 : (bs : List ℕ) → All (λ b. b < 128) bs → bytes (from_utf8 bs) ≡ bs

-- One round of the hash, on `u64`.
abbrev pub hash_step : ℕ → ℕ → ℕ
hash_step hash byte = (hash * 33 % 2 ^ 64 + byte) % 2 ^ 64

unfoldable pub hash_bytes : ℕ → List ℕ → ℕ
hash_bytes hash [] = hash
hash_bytes hash (byte ∷ bs) = hash_bytes (hash_step hash byte) bs

-- `CHARS[d]`: the digits, then the letters.
abbrev pub char_of : ℕ → ℕ
char_of d = if ltb d 10 then 48 + d else 87 + d

-- The loop that pushes the digits, the lowest first.
unfoldable pub push_digits : ℕ → ℕ → List ℕ
push_digits zero n = []
push_digits (suc fuel) n =
    let rest = push_digits fuel (n / 36) in if n == 0 then [] else char_of (n % 36) ∷ rest

-- A number of 64 bits has at most 13 digits.
unfoldable pub radix_fmt : ℕ → List ℕ
radix_fmt n = if n == 0 then 48 ∷ [] else reverse (push_digits 13 n)

module _ (utf8 : Utf8) where
  unfoldable pub djb2 : String → String
  djb2 input = utf8.from_utf8 (radix_fmt (hash_bytes 5381 (utf8.bytes input)))

  -- `diffs.join("\n---\n")`.
  unfoldable pub join_diffs : List String → String
  join_diffs [] = ""
  join_diffs (diff ∷ []) = diff
  join_diffs (diff ∷ diffs) = diff <> "\n---\n" <> join_diffs diffs

  unfoldable pub compute_diff_hash : List String → String
  compute_diff_hash diffs = djb2 (join_diffs diffs)

  -- The pairs are collected in a map: the last one of a path stays.
  unfoldable pub collect_hashes :
      List (String × String) → List (String × String) → List (String × String)
  collect_hashes [] hashes = hashes
  collect_hashes ((path, diff) ∷ files) hashes =
      collect_hashes files (insert path (djb2 diff) hashes)

  abbrev pub compute_file_diff_hashes : List (String × String) → List (String × String)
  compute_file_diff_hashes files = collect_hashes files []

-- The paths that are new or whose hash changed.
unfoldable pub changed_files : List (String × String) → List (String × String) → List String
changed_files [] cached_hashes = []
changed_files ((path, hash) ∷ current) cached_hashes =
    let rest = changed_files current cached_hashes in
    elim (lookup path cached_hashes) [
      | none ↦ path ∷ rest
      | some cached_hash ↦ ite (String_discrete cached_hash hash) rest (path ∷ rest)
    ]
