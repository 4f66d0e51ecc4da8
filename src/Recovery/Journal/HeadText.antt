-- ===== src/Recovery/Journal/HeadText.antt =====
-- The text of a head of crates/uf-daemon/src/ddr_recovery_journal.rs, read back from its file.
use uflow.Prelude.{
  ℕ, zero, suc, ◌+◌, ◌/◌, ◌%◌, ◌^◌, ◌≤◌, ◌<◌, ◌≡◌, [], ◌∷◌, ◌++◌, true, false, ok, All, arith, ltb,
  length, length-append, u64_mod, Bool-cases, inl, inr,
}
use native.Mathlib.Nat.{pow-suc}
use uflow.Prelude.Text.{Str, text, to_decimal, decimal_digits, valid_utf8_ascii}
use uflow.Recovery.Audit.State.{valid_name}
use uflow.Recovery.Journal.Head.{
  Mode, clean, dirty, Head, mode_name, state_version, line_then, encode_head, to_hex,
  is_inconsistent, valid_broker,
}
use uflow.Recovery.Journal.HeadTrip.{
  Narrow, parse_head-encode_head, plain_text, broker_plain, known_broker, parse_mode-name,
  label_version, label_mode, label_broker, label_sequence, label_offset, label_checksum,
  label_clean,
}
use uflow.Recovery.Journal.Numerals.{
  LineByte, All-append, to_decimal_plain, hex_plain, length-to_hex,
}
use uflow.Recovery.Journal.Store.{read_head, max_state}

-- A line of a label and a value.
abbrev Segment : Str → ℕ → Type 0
Segment l size = All LineByte l × (length l ≤ size)

decimal_short : (k fuel n : ℕ) → n < 10 ^ suc k → length (decimal_digits fuel n) ≤ suc k
unfolding decimal_digits
decimal_short k zero n small = omega arith
decimal_short zero (suc fuel) n small = rw (one small) (omega arith)
  where
    one : n < 10 ^ 1 → ltb n 10 ≡ true
    one small = ground arith
decimal_short (suc k) (suc fuel) n small = elim (Bool-cases (ltb n 10)) [
  | inl one ↦ rw one (omega arith)
  | inr more ↦ rw more (
      omega (
        arith,
        length-append (decimal_digits fuel (n / 10)) ((n % 10 + 48) ∷ []),
        decimal_short k fuel (n / 10) (omega (arith, small, pow-suc 10 (suc k))),
      ))
]

to_decimal_short : (n : ℕ) → n < u64_mod → length (to_decimal n) ≤ 20
unfolding to_decimal
to_decimal_short n small = decimal_short 19 (suc n) n (omega arith)

ascii : (s : Str) → All LineByte s → All (λ c. c < 128) s
ascii [] plain = tt
ascii (c ∷ cs) ((_, low, _), plain) = (low, ascii cs plain)

-- What a text needs to be read from the file, with a bound on its length.
record Readable (s : Str) (size : ℕ) : Type 0 where
  low : All (λ c. c < 128) s
  short : length s ≤ size

line-Readable :
    (label value rest : Str) (i k n : ℕ)
    → Segment label i
    → Segment value k
    → Readable rest n
    → Readable (line_then (label ++ value) rest) (i + k + 1 + n)
line-Readable label value rest i k n (label_plain, label_size) (value_plain, value_size) readable =
    record {
      low =
          All-append (λ c. c < 128) (label ++ value) (10 ∷ rest)
            (ascii (label ++ value) (All-append LineByte label value label_plain value_plain))
            (omega arith, readable.low);
      short = omega (
        arith,
        length-append (label ++ value) (10 ∷ rest),
        length-append label value,
        readable.short,
      );
    }

line_version : Segment (text "uflow-ddr-recovery-head-v1") 26
unfolding text
line_version = (plain_text (text "uflow-ddr-recovery-head-v1") label_version, omega arith)

line_mode : Segment (text "mode=") 5
unfolding text
line_mode = (plain_text (text "mode=") label_mode, omega arith)

line_broker : Segment (text "broker=") 7
unfolding text
line_broker = (plain_text (text "broker=") label_broker, omega arith)

line_sequence : Segment (text "sequence=") 9
unfolding text
line_sequence = (plain_text (text "sequence=") label_sequence, omega arith)

line_offset : Segment (text "offset=") 7
unfolding text
line_offset = (plain_text (text "offset=") label_offset, omega arith)

line_checksum : Segment (text "checksum=") 9
unfolding text
line_checksum = (plain_text (text "checksum=") label_checksum, omega arith)

line_clean : Segment (text "clean_sequence=") 15
unfolding text
line_clean = (plain_text (text "clean_sequence=") label_clean, omega arith)

decimal_line : (n : ℕ) → n < u64_mod → Segment (to_decimal n) 20
decimal_line n small = (to_decimal_plain n, to_decimal_short n small)

hex_line : (n : ℕ) → Segment (to_hex 16 n) 16
hex_line n = (hex_plain 16 n, rw (length-to_hex 16 n) (omega arith))

mode_line : (m : Mode) → Segment (mode_name m) 5
unfolding text
mode_line clean = let (_, plain) = parse_mode-name clean in (plain, omega arith)
mode_line dirty = let (_, plain) = parse_mode-name dirty in (plain, omega arith)

broker_line : (s : Str) → valid_broker s ≡ true → Segment s 96
unfolding valid_name
broker_line s valid = (broker_plain s valid, ground arith)

head_Readable : (h : Head) → Narrow h → is_inconsistent h ≡ false → Readable (encode_head h) 262
unfolding encode_head
head_Readable h narrow consistent =
    line-Readable [] state_version _ 0 26 235 (tt, omega arith) line_version
      (line-Readable (text "mode=") (mode_name h.mode) _ 5 5 224 line_mode (mode_line h.mode) (
        line-Readable (text "broker=") h.broker _ 7 96 120 line_broker
          (broker_line h.broker (known_broker h consistent))
          (line-Readable (text "sequence=") (to_decimal h.sequence) _ 9 20 90 line_sequence
            (decimal_line h.sequence narrow.sequence)
            (line-Readable (text "offset=") (to_decimal h.offset) _ 7 20 62 line_offset
              (decimal_line h.offset narrow.offset)
              (line-Readable (text "checksum=") (to_hex 16 h.checksum) _ 9 16 36 line_checksum
                (hex_line h.checksum)
                (line-Readable (text "clean_sequence=") (to_decimal h.clean_sequence) [] 15 20 0
                  line_clean (decimal_line h.clean_sequence narrow.clean_sequence)
                  (record { low = tt; short = omega arith })))))))

-- A consistent head is read back from the file that its text was written to.
pub read_head-encode_head :
    (h : Head) → Narrow h → is_inconsistent h ≡ false → read_head (encode_head h) ≡ ok h
unfolding read_head
read_head-encode_head h narrow consistent =
    let readable = head_Readable h narrow consistent in
    rw (small readable.short, valid_utf8_ascii (encode_head h) readable.low)
      (parse_head-encode_head h narrow consistent)
  where
    small : length (encode_head h) ≤ 262 → ltb max_state (length (encode_head h)) ≡ false
    small short = ground arith
