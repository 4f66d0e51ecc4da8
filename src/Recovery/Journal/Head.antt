-- ===== src/Recovery/Journal/Head.antt =====
-- The durable head of crates/uf-daemon/src/ddr_recovery_journal.rs.
use uflow.Prelude.{
  ℕ, zero, suc, ◌+◌, ◌-◌, ◌*◌, ◌/◌, ◌%◌, [], ◌∷◌, ◌++◌, Bool, true, false, not, ◌&&◌, ◌||◌, Option,
  none, some, Result, ok, err, ◌>>=◌, ◌>>◌, fail_if, ok_or, is_some, ◌==◌, ltb, leb, if◌then◌else◌,
  bytes_beq, u64_mod,
}
use uflow.Prelude.Text.{Str, text, to_decimal}
use uflow.Recovery.Audit.State.{valid_name}
use uflow.Recovery.Journal.Frame.{IoError, invalid_data, max_journal}

pub data Mode : Type 0 where
  clean dirty : Mode

pub record Head : Type 0 where
  pub mode : Mode
  pub broker : Str
  pub sequence : ℕ
  pub offset : ℕ
  pub checksum : ℕ
  pub clean_sequence : ℕ

-- `Head::genesis`
abbrev pub genesis : Head
genesis = record {
  mode = clean;
  broker = text "none";
  sequence = 0;
  offset = 0;
  checksum = 0;
  clean_sequence = 0;
}

abbrev pub is_dirty : Mode → Bool
is_dirty clean = false
is_dirty dirty = true

abbrev pub same_mode : Mode → Mode → Bool
same_mode clean clean = true
same_mode dirty dirty = true
same_mode _ _ = false

-- The derived `==`.
unfoldable pub same_head : Head → Head → Bool
same_head a b =
    same_mode a.mode b.mode
    && (bytes_beq a.broker b.broker
        && (a.sequence == b.sequence
            && (a.offset == b.offset
                && (a.checksum == b.checksum && a.clean_sequence == b.clean_sequence))))

unfoldable pub hex_digit : ℕ → ℕ
hex_digit d = if ltb d 10 then d + 48 else d + 87

-- `{:016x}`, for `k` digits.
unfoldable pub to_hex : ℕ → ℕ → Str
to_hex zero n = []
to_hex (suc k) n = to_hex k (n / 16) ++ (hex_digit (n % 16) ∷ [])

abbrev pub mode_name : Mode → Str
mode_name clean = text "clean"
mode_name dirty = text "dirty"

abbrev pub state_version : Str
state_version = text "uflow-ddr-recovery-head-v1"

abbrev pub newline : Str
newline = 10 ∷ []

-- A line, and what follows it.
abbrev pub line_then : Str → Str → Str
line_then line rest = line ++ (10 ∷ rest)

-- `Head::encode`
unfoldable pub encode_head : Head → Str
encode_head h = line_then state_version (
    line_then (text "mode=" ++ mode_name h.mode) (
      line_then (text "broker=" ++ h.broker) (
        line_then (text "sequence=" ++ to_decimal h.sequence) (
          line_then (text "offset=" ++ to_decimal h.offset) (
            line_then (text "checksum=" ++ to_hex 16 h.checksum)
              (line_then (text "clean_sequence=" ++ to_decimal h.clean_sequence) []))))))

-- `str::lines`: a line is cut at a newline, and loses a carriage return before that.
unfoldable pub cut_line : Str → Option (Str × Str)
cut_line [] = none
cut_line (c ∷ cs) =
    let later = cut_line cs in
    if c == 10
    then some ([], cs)
    else elim later [ none ↦ none | some (line, rest) ↦ some (c ∷ line, rest) ]

unfoldable pub strip_return : Str → Str
strip_return [] = []
strip_return (c ∷ []) = if c == 13 then [] else c ∷ []
strip_return (c ∷ d ∷ cs) = c ∷ strip_return (d ∷ cs)

-- `lines.next()` on the rest of the text.
unfoldable pub next_line : Str → Option (Str × Str)
next_line [] = none
next_line (c ∷ cs) = elim (cut_line (c ∷ cs)) [
  | none ↦ some (c ∷ cs, [])
  | some (line, rest) ↦ some (strip_return line, rest)
]

unfoldable pub strip_prefix : Str → Str → Option Str
strip_prefix [] s = some s
strip_prefix (p ∷ ps) [] = none
strip_prefix (p ∷ ps) (c ∷ cs) = let later = strip_prefix ps cs in if p == c then later else none

-- `field` in `Head::parse`
unfoldable pub field : Str → Str → Result IoError (Str × Str)
field prefix rest = do
  (line, others) ←
      ok_or (next_line rest) (invalid_data (text "missing or malformed recovery head field"))
  value ←
      ok_or (strip_prefix prefix line)
        (invalid_data (text "missing or malformed recovery head field"))
  ok (value, others)

-- `char::to_digit`
unfoldable pub digit_value : ℕ → ℕ → Option ℕ
digit_value radix c =
    let d =
      if leb 48 c && leb c 57
      then c - 48
      else if leb 97 c && leb c 122
      then c - 87
      else if leb 65 c && leb c 90
      then c - 55
      else 36 in
    if ltb d radix then some d else none

-- The loop of `u64::from_str_radix`.
unfoldable pub parse_digits : ℕ → ℕ → Str → Option ℕ
parse_digits radix acc [] = some acc
parse_digits radix acc (c ∷ cs) = elim (digit_value radix c) [
  | none ↦ none
  | some d ↦ elim (ltb (acc * radix + d) u64_mod) [
    | true ↦ parse_digits radix (acc * radix + d) cs
    | false ↦ none
  ]
]

-- `u64::from_str_radix`, and `parse` with radix 10: a plus sign may come first, and is no number by itself.
unfoldable pub parse_u64 : ℕ → Str → Option ℕ
parse_u64 radix [] = none
parse_u64 radix (c ∷ []) = parse_digits radix 0 (c ∷ [])
parse_u64 radix (c ∷ d ∷ cs) =
    if c == 43 then parse_digits radix 0 (d ∷ cs) else parse_digits radix 0 (c ∷ d ∷ cs)

-- `number` in `Head::parse`
abbrev pub number : Str → Result IoError ℕ
number value = ok_or (parse_u64 10 value) (invalid_data (text "invalid recovery head integer"))

unfoldable pub parse_mode : Str → Result IoError Mode
parse_mode value =
    if bytes_beq value (text "clean")
    then ok clean
    else if bytes_beq value (text "dirty")
    then ok dirty
    else err (invalid_data (text "invalid recovery head mode"))

-- `valid_broker`; the test is that of `valid_name`.
abbrev pub valid_broker : Str → Bool
valid_broker value = valid_name value

-- What `parse` refuses of a head that it has read.
unfoldable pub is_inconsistent : Head → Bool
is_inconsistent h =
    not (valid_broker h.broker)
    || ltb max_journal h.offset
    || ltb h.sequence h.clean_sequence
    || (h.sequence == 0 && not (same_head h genesis))
    || (ltb 0 h.sequence && h.offset == 0)
    || (ltb 0 h.sequence && bytes_beq h.broker (text "none"))
    || (same_mode h.mode clean && not (h.clean_sequence == h.sequence))

-- The end of `Head::parse`, with the text, what is left of its lines, and the head that was read.
unfoldable pub check_head : Str → Str → Head → Result IoError Head
check_head source rest head = do
  fail_if
      (is_some (next_line rest)
        || not (bytes_beq (encode_head head) source)
        || is_inconsistent head)
      (invalid_data (text "noncanonical or inconsistent recovery head"))
  ok head

-- `Head::parse`
unfoldable pub parse_head : Str → Result IoError Head
parse_head source = do
  (version, r0) ← ok_or (next_line source) (invalid_data (text "invalid recovery head version"))
  fail_if (not (bytes_beq version state_version))
      (invalid_data (text "invalid recovery head version"))
  (mode_text, r1) ← field (text "mode=") r0
  mode ← parse_mode mode_text
  (broker, r2) ← field (text "broker=") r1
  (sequence_text, r3) ← field (text "sequence=") r2
  sequence ← number sequence_text
  (offset_text, r4) ← field (text "offset=") r3
  offset ← number offset_text
  (checksum_text, r5) ← field (text "checksum=") r4
  checksum ←
      ok_or (parse_u64 16 checksum_text) (invalid_data (text "invalid recovery head checksum"))
  (clean_text, r6) ← field (text "clean_sequence=") r5
  clean_sequence ← number clean_text
  check_head source r6 (record {
    mode = mode;
    broker = broker;
    sequence = sequence;
    offset = offset;
    checksum = checksum;
    clean_sequence = clean_sequence;
  })
