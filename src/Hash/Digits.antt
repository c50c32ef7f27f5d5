-- ===== src/Hash/Digits.antt =====
-- Reading back the base 36 of `radix_fmt` (src/util/hash.rs).
use mathlib.Core.List.{reverse, reverse-cons, reverse-reverse}
use botto.Prelude.{
  String, ℕ, zero, suc, ◌+◌, ◌-◌, ◌*◌, ◌%◌, ◌/◌, ◌^◌, ◌<◌, ◌≡◌, sym, ap, ◌∙◌, subst, List, [], ◌∷◌,
  if◌then◌else◌, ltb, ◌==◌, All, All-append, arith, Bool-cases, inl, inr,
}
use botto.Hash.{Utf8, hash_step, hash_bytes, char_of, push_digits, radix_fmt, djb2}

-- The digit of a character.
abbrev digit_of : ℕ → ℕ
digit_of c = if ltb c 58 then c - 48 else c - 87

-- The number that digits stand for, the lowest first.
abbrev value : List ℕ → ℕ
value [] = 0
value (c ∷ cs) = digit_of c + 36 * value cs

-- The number that a text in base 36 stands for.
abbrev pub read : List ℕ → ℕ
read cs = value (reverse cs)

digit_of-char_of : (d : ℕ) → d < 36 → digit_of (char_of d) ≡ d
digit_of-char_of d h = ground arith

value-push_digits : (fuel n : ℕ) → n < 36 ^ fuel → value (push_digits fuel n) ≡ n
unfolding push_digits
value-push_digits zero n h = omega arith
value-push_digits (suc fuel) n h = elim (Bool-cases (n == 0)) [
  | inl none_left ↦ rw none_left (ground (arith, none_left))
  | inr more ↦ rw more (
      omega (
        arith,
        digit_of-char_of (n % 36) (omega arith),
        value-push_digits fuel (n / 36) (omega (arith, h)),
      ))
]

read-radix_fmt : (n : ℕ) → n < 2 ^ 64 → read (radix_fmt n) ≡ n
unfolding radix_fmt
read-radix_fmt n h = elim (Bool-cases (n == 0)) [
  | inl nothing ↦ rw nothing (ground (arith, nothing))
  | inr something ↦
      rw something
        (ap value (reverse-reverse (push_digits 13 n)) ∙ value-push_digits 13 n (omega (arith, h)))
]

push_digits-ascii : (fuel n : ℕ) → All (λ b. b < 128) (push_digits fuel n)
unfolding push_digits
push_digits-ascii zero n = tt
push_digits-ascii (suc fuel) n = elim (Bool-cases (n == 0)) [
  | inl none_left ↦ rw none_left tt
  | inr more ↦ rw more (
      let small : n % 36 < 36 = omega arith in
      (ground (arith, small), push_digits-ascii fuel (n / 36)))
]

All-reverse : (bs : List ℕ) → All (λ b. b < 128) bs → All (λ b. b < 128) (reverse bs)
All-reverse [] h = tt
All-reverse (b ∷ bs) h =
    subst (All (λ x. x < 128)) (sym (reverse-cons b bs))
      (All-append _ (reverse bs) (b ∷ []) (All-reverse bs h.1) (h.0, tt))

radix_fmt-ascii : (n : ℕ) → All (λ b. b < 128) (radix_fmt n)
unfolding radix_fmt
radix_fmt-ascii n = elim (Bool-cases (n == 0)) [
  | inl nothing ↦ rw nothing (omega arith, tt)
  | inr something ↦ rw something (All-reverse (push_digits 13 n) (push_digits-ascii 13 n))
]

hash_bytes-small : (hash : ℕ) (bs : List ℕ) → hash < 2 ^ 64 → hash_bytes hash bs < 2 ^ 64
unfolding hash_bytes
hash_bytes-small hash [] h = h
hash_bytes-small hash (b ∷ bs) h = hash_bytes-small (hash_step hash b) bs (omega arith)

module _ (utf8 : Utf8) where
  -- The text of a hash, read as a number in base 36, is the hash of 64 bits: the text loses nothing
  -- of it.
  pub read-djb2 :
      (input : String) → read (utf8.bytes (djb2 utf8 input)) ≡ hash_bytes 5381 (utf8.bytes input)
  unfolding djb2
  read-djb2 input =
      let n = hash_bytes 5381 (utf8.bytes input) in
      ap read (utf8.bytes-from_utf8 (radix_fmt n) (radix_fmt-ascii n))
      ∙ read-radix_fmt n (hash_bytes-small 5381 (utf8.bytes input) (omega arith))
