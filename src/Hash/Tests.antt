-- ===== src/Hash/Tests.antt =====
-- The theorems at two files.
use Prim.Native.Nat.{Ordering, compare}
use Prim.Native.Char.{Char, char, code, IsScalar, nul}
use native.Mathlib.Decide.{dec_lt}
use text.Mathlib.TextBridge.{to_list, of_list, to_list-of_list}
use botto.Prelude.{
  String, ℕ, ◌≡◌, ◌<◌, refl, ap, ◌∙◌, List, [], ◌∷◌, map, All, string_key, contains, arith,
}
use botto.Prelude.Maps.{lookup}
use botto.Hash.{Utf8, djb2, hash_bytes, changed_files, compute_file_diff_hashes}
use botto.Hash.Digits.{read, read-djb2}
use botto.Hash.Changed.{is_changed, contains-changed_files}

compare-lt : (n : ℕ) → n < 128 → compare n 55296 ≡ Ordering.lt
compare-lt n h = ground arith

ascii-IsScalar : (n : ℕ) → n < 128 → IsScalar n
ascii-IsScalar n h = rw (compare-lt n h) tt

abbrev char_at : ℕ → Char
char_at n = elim (dec_lt n 128) [ yes h ↦ char n (ascii-IsScalar n h) | no _ ↦ nul ]

code-char_at : (n : ℕ) → n < 128 → code (char_at n) ≡ n
code-char_at n h =
    elim (dec_lt n 128)
      as (λ d. code (elim d [ yes h ↦ char n (ascii-IsScalar n h) | no _ ↦ nul ]) ≡ n) [
        | yes _ ↦ refl
        | no large ↦ absurd (large h)
      ]

codes-char_at : (bs : List ℕ) → All (λ b. b < 128) bs → map code (map char_at bs) ≡ bs
codes-char_at [] h = refl
codes-char_at (b ∷ bs) h = cc (code-char_at b h.0, codes-char_at bs h.1)

-- Texts of ASCII: a byte for each character.
abbrev ascii : Utf8
ascii = record {
  bytes = λ s. map code (to_list s);
  from_utf8 = λ bs. of_list (map char_at bs);
  bytes-from_utf8 = λ bs h. ap (map code) (to_list-of_list (map char_at bs)) ∙ codes-char_at bs h;
}

read-djb2_example :
    read (ascii.bytes (djb2 ascii "+ let x = 1;")) ≡ hash_bytes 5381 (ascii.bytes "+ let x = 1;")
read-djb2_example = read-djb2 ascii "+ let x = 1;"

abbrev files : List (String × String)
files = ("main.rs", "+ let x = 1;") ∷ ("lib.rs", "- old") ∷ []

abbrev cached : List (String × String)
cached = ("lib.rs", djb2 ascii "- old") ∷ []

contains-changed_files_example :
    contains (changed_files (compute_file_diff_hashes ascii files) cached) "main.rs"
    ≡ is_changed (lookup "main.rs" (compute_file_diff_hashes ascii files)) (lookup "main.rs" cached)
contains-changed_files_example = contains-changed_files ascii files cached "main.rs"
