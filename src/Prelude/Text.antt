-- ===== src/Prelude/Text.antt =====
-- Rust strings as their UTF-8 bytes.
use Prim.Native.Nat.{ℕ, zero, suc, ◌+◌, ◌*◌, ◌-◌, ◌/◌, ◌%◌, ◌<◌}
use Prim.Native.String.{String}
use Prim.Native.Char.{code}
use mathlib.Core.Path.{◌≡◌, refl, sym, ap, ◌∙◌}
use mathlib.Core.Bool.{Bool, true, false, ◌&&◌}
use mathlib.Core.List.{List, [], ◌∷◌, ◌++◌}
use native.Mathlib.Omega.{arith}
use mathlib.Core.Option.{Option, none, some}
use mathlib.Core.Logic.{inl, inr}
use uflow.Prelude.Lists.{All}
use uflow.Prelude.Tests.{ltb, leb, ◌==◌, if◌then◌else◌, Bool-cases}

abbrev pub Str : Type 0
Str = List ℕ

-- The bytes of an ASCII literal.
unfoldable pub text : String → Str
text String.[] = []
text (String.◌∷◌ c s) = code c ∷ text s

unfoldable pub is_empty : Str → Bool
is_empty [] = true
is_empty (x ∷ xs) = false

-- How many continuation bytes a leading byte asks for, and the range of the first of them.
abbrev utf8_lead : ℕ → Option (ℕ × ℕ × ℕ)
utf8_lead b =
    if ltb b 0x80
    then some (0, 0, 0)
    else if leb 0xc2 b && leb b 0xdf
    then some (1, 0x80, 0xbf)
    else if b == 0xe0
    then some (2, 0xa0, 0xbf)
    else if b == 0xed
    then some (2, 0x80, 0x9f)
    else if leb 0xe1 b && leb b 0xef
    then some (2, 0x80, 0xbf)
    else if b == 0xf0
    then some (3, 0x90, 0xbf)
    else if leb 0xf1 b && leb b 0xf3
    then some (3, 0x80, 0xbf)
    else if b == 0xf4
    then some (3, 0x80, 0x8f)
    else none

utf8_run : ℕ → ℕ → ℕ → Str → Bool
utf8_run zero lo hi [] = true
utf8_run (suc k) lo hi [] = false
utf8_run (suc k) lo hi (b ∷ bs) = leb lo b && leb b hi && utf8_run k 0x80 0xbf bs
utf8_run zero lo hi (b ∷ bs) = elim (utf8_lead b) [
  | none ↦ false
  | some (k, lo', hi') ↦ utf8_run k lo' hi' bs
]

-- `std::str::from_utf8` accepts the bytes.
unfoldable pub valid_utf8 : Str → Bool
unfolding utf8_run
valid_utf8 bs = utf8_run 0 0 0 bs

utf8_run_ascii : (s : Str) → All (λ c. c < 128) s → utf8_run 0 0 0 s ≡ true
unfolding utf8_run
utf8_run_ascii [] low = refl
utf8_run_ascii (b ∷ bs) (first, low) = ground (arith, first, utf8_run_ascii bs)

-- Text of ASCII bytes is valid.
pub valid_utf8_ascii : (s : Str) → All (λ c. c < 128) s → valid_utf8 s ≡ true
unfolding valid_utf8
valid_utf8_ascii s low = utf8_run_ascii s low

-- `n.to_string()`: the decimal digits, the highest first.
unfoldable pub decimal_digits : ℕ → ℕ → Str
decimal_digits zero n = []
decimal_digits (suc fuel) n =
    let high = decimal_digits fuel (n / 10) in
    if ltb n 10 then (n + 48) ∷ [] else high ++ ((n % 10 + 48) ∷ [])

unfoldable pub to_decimal : ℕ → Str
unfolding decimal_digits
to_decimal n = decimal_digits (suc n) n

decimal_value : ℕ → Str → ℕ
decimal_value acc [] = acc
decimal_value acc (d ∷ ds) = decimal_value (acc * 10 + (d - 48)) ds

decimal_value-append :
    (acc d : ℕ) (ds : Str)
    → decimal_value acc (ds ++ (d ∷ [])) ≡ decimal_value acc ds * 10 + (d - 48)
unfolding decimal_value
decimal_value-append acc d [] = refl
decimal_value-append acc d (x ∷ ds) = decimal_value-append (acc * 10 + (x - 48)) d ds

decimal_digits_small :
    (fuel n : ℕ) → ltb n 10 ≡ true → decimal_value 0 (decimal_digits (suc fuel) n) ≡ n
unfolding decimal_digits decimal_value
decimal_digits_small fuel n h = rw h (omega arith)

decimal_digits_large :
    (fuel n : ℕ)
    → ltb n 10 ≡ false
    → decimal_digits (suc fuel) n ≡ decimal_digits fuel (n / 10) ++ ((n % 10 + 48) ∷ [])
unfolding decimal_digits
decimal_digits_large fuel n h = rw h

decimal_value-digits : (fuel n : ℕ) → n < fuel → decimal_value 0 (decimal_digits fuel n) ≡ n
decimal_value-digits zero n h = absurd (omega arith)
decimal_value-digits (suc fuel) n h = elim (Bool-cases (ltb n 10)) [
  | inl small ↦ decimal_digits_small fuel n small
  | inr large ↦
      rw
        (
          decimal_digits_large fuel n large,
          decimal_value-append 0 (n % 10 + 48) (decimal_digits fuel (n / 10)),
        )
        (ground (arith, decimal_value-digits fuel (n / 10)))
]

-- Two numbers are printed alike only if they are equal.
pub to_decimal-injective : (m n : ℕ) → to_decimal m ≡ to_decimal n → m ≡ n
unfolding to_decimal
to_decimal-injective m n e =
    sym (decimal_value-digits (suc m) m (omega arith))
    ∙ ap (decimal_value 0) e
    ∙ decimal_value-digits (suc n) n (omega arith)

-- A name of the form `prefix-number` determines the number.
pub append_cancel_left : (xs ys zs : Str) → xs ++ ys ≡ xs ++ zs → ys ≡ zs
append_cancel_left [] ys zs e = e
append_cancel_left (x ∷ xs) ys zs e = append_cancel_left xs ys zs (cc)
