-- ===== src/Recovery/Journal/Numerals.antt =====
-- The numbers in the head of crates/uf-daemon/src/ddr_recovery_journal.rs, printed and read.
use uflow.Prelude.{
  ℕ, zero, suc, ◌+◌, ◌*◌, ◌/◌, ◌%◌, ◌^◌, ◌<◌, ◌≡◌, refl, ap, ◌∙◌, List, [], ◌∷◌, ◌++◌, false, some,
  length, length-append, All, arith, ltb, ◌==◌, u64_mod, Bool-cases, Option-cases, inl, inr,
}
use native.Mathlib.Nat.{pow-suc}
use uflow.Prelude.Text.{Str, to_decimal, decimal_digits}
use uflow.Recovery.Journal.Head.{hex_digit, to_hex, digit_value, parse_digits, parse_u64}

-- A character that `lines` and a number in front leave alone: above the control characters, and in ASCII.
abbrev pub LineByte : ℕ → Type 0
LineByte c = (13 < c) × (c < 128) × ((c == 43) ≡ false)

pub All-append {ℓ} : (P : ℕ → Type ℓ) (xs ys : List ℕ) → All P xs → All P ys → All P (xs ++ ys)
All-append P [] ys front back = back
All-append P (x ∷ xs) ys (first, front) back = (first, All-append P xs ys front back)

-- A digit more at the end.
parse_digits-append :
    (radix acc value c d : ℕ) (cs : Str)
    → parse_digits radix acc cs ≡ some value
    → digit_value radix c ≡ some d
    → value * radix + d < u64_mod
    → parse_digits radix acc (cs ++ (c ∷ [])) ≡ some (value * radix + d)
unfolding parse_digits
parse_digits-append radix acc value c d [] front digit small = ground (arith, front, digit, small)
parse_digits-append radix acc value c d (x ∷ cs) front digit small =
    elim (Option-cases (digit_value radix x)) [
      | inl none_read ↦ absurd (ground (arith, front, none_read))
      | inr (y, read) ↦ elim (Bool-cases (ltb (acc * radix + y) u64_mod)) [
        | inr over ↦ absurd (ground (arith, front, read, over))
        | inl under ↦ ground (
          arith,
          read,
          under,
          parse_digits-append radix (acc * radix + y) value c d cs
              (ground (arith, front, read, under)) digit small,
        )
      ]
    ]

decimal_read : (d : ℕ) → d < 10 → digit_value 10 (d + 48) ≡ some d
unfolding digit_value
decimal_read d small = ground arith

hex_read : (d : ℕ) → d < 16 → digit_value 16 (hex_digit d) ≡ some d
unfolding digit_value hex_digit
hex_read d small = ground arith

decimal_filled : (fuel n : ℕ) → 0 < length (decimal_digits (suc fuel) n)
unfolding decimal_digits
decimal_filled fuel n = elim (Bool-cases (ltb n 10)) [
  | inl one ↦ rw one (omega arith)
  | inr more ↦
      rw more (omega (arith, length-append (decimal_digits fuel (n / 10)) ((n % 10 + 48) ∷ [])))
]

pub length-to_hex : (k n : ℕ) → length (to_hex k n) ≡ k
unfolding to_hex
length-to_hex zero n = refl
length-to_hex (suc k) n =
    omega
      (arith, length-append (to_hex k (n / 16)) (hex_digit (n % 16) ∷ []), length-to_hex k (n / 16))

-- The digits of a number below the fuel are read as the number.
parse-decimal_digits :
    (fuel n : ℕ) → n < fuel → n < u64_mod → parse_digits 10 0 (decimal_digits fuel n) ≡ some n
unfolding decimal_digits parse_digits
parse-decimal_digits zero n below small = absurd (omega arith)
parse-decimal_digits (suc fuel) n below small = elim (Bool-cases (ltb n 10)) [
  | inl one ↦ ground (arith, one, decimal_read n)
  | inr more ↦ rw more (
      parse_digits-append 10 0 (n / 10) (n % 10 + 48) (n % 10) (decimal_digits fuel (n / 10))
        (parse-decimal_digits fuel (n / 10) (ground (arith, more)) (omega arith))
        (decimal_read (n % 10) (omega arith)) (omega arith)
      ∙ ap some whole)
]
  where
    whole : n / 10 * 10 + n % 10 ≡ n
    whole = omega arith

parse-to_hex : (k n : ℕ) → n < 16 ^ k → n < u64_mod → parse_digits 16 0 (to_hex k n) ≡ some n
unfolding to_hex parse_digits
parse-to_hex zero n below small = ap some (omega arith)
parse-to_hex (suc k) n below small =
    parse_digits-append 16 0 (n / 16) (hex_digit (n % 16)) (n % 16) (to_hex k (n / 16))
      (parse-to_hex k (n / 16) (omega (arith, below, pow-suc 16 k)) (omega arith))
      (hex_read (n % 16) (omega arith)) (omega arith)
    ∙ ap some whole
  where
    whole : n / 16 * 16 + n % 16 ≡ n
    whole = omega arith

decimal_plain : (fuel n : ℕ) → All LineByte (decimal_digits fuel n)
unfolding decimal_digits
decimal_plain zero n = tt
decimal_plain (suc fuel) n = elim (Bool-cases (ltb n 10)) [
  | inl one ↦ rw one ((omega arith, ground (arith, one), ground (arith)), tt)
  | inr more ↦ rw more (
      All-append LineByte (decimal_digits fuel (n / 10)) ((n % 10 + 48) ∷ [])
        (decimal_plain fuel (n / 10)) ((omega arith, omega arith, ground (arith)), tt))
]

pub hex_plain : (k n : ℕ) → All LineByte (to_hex k n)
unfolding to_hex hex_digit
hex_plain zero n = tt
hex_plain (suc k) n =
    All-append LineByte (to_hex k (n / 16)) (hex_digit (n % 16) ∷ []) (hex_plain k (n / 16))
      ((ground arith, ground arith, ground arith), tt)

-- A number without a sign in front is read digit by digit.
parse_u64_unsigned :
    (radix : ℕ) (c : ℕ) (cs : Str)
    → (c == 43) ≡ false
    → parse_u64 radix (c ∷ cs) ≡ parse_digits radix 0 (c ∷ cs)
unfolding parse_u64
parse_u64_unsigned radix c [] unsigned = refl
parse_u64_unsigned radix c (d ∷ cs) unsigned = rw unsigned refl

parse_u64_plain :
    (radix value : ℕ) (cs : Str)
    → 0 < length cs
    → All LineByte cs
    → parse_digits radix 0 cs ≡ some value
    → parse_u64 radix cs ≡ some value
parse_u64_plain radix value [] filled plain read = absurd (ground arith)
parse_u64_plain radix value (c ∷ cs) filled ((_, _, unsigned), plain) read =
    parse_u64_unsigned radix c cs unsigned ∙ read

pub to_decimal_plain : (n : ℕ) → All LineByte (to_decimal n)
unfolding to_decimal
to_decimal_plain n = decimal_plain (suc n) n

-- A number that is printed in decimal is read back.
pub parse_u64-to_decimal : (n : ℕ) → n < u64_mod → parse_u64 10 (to_decimal n) ≡ some n
unfolding to_decimal
parse_u64-to_decimal n small =
    parse_u64_plain 10 n (decimal_digits (suc n) n) (filled n) (decimal_plain (suc n) n)
      (parse-decimal_digits (suc n) n (omega arith) small)
  where
    filled : (n : ℕ) → 0 < length (decimal_digits (suc n) n)
    filled n = decimal_filled n n

-- A number that is printed with 16 hexadecimal digits is read back.
pub parse_u64-to_hex : (n : ℕ) → n < u64_mod → parse_u64 16 (to_hex 16 n) ≡ some n
parse_u64-to_hex n small =
    parse_u64_plain 16 n (to_hex 16 n) (rw (length-to_hex 16 n) (omega arith)) (hex_plain 16 n)
      (parse-to_hex 16 n small small)
