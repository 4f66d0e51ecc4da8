-- ===== src/Recovery/Journal/HeadTrip.antt =====
-- The text of a head of crates/uf-daemon/src/ddr_recovery_journal.rs, written and parsed.
use uflow.Prelude.{
  ℕ, ◌<◌, ◌≡◌, refl, ◌∙◌, [], ◌∷◌, ◌++◌, Bool, true, false, not, ◌&&◌, none, some, ok, All, arith,
  ltb, ◌==◌, bytes_beq, bytes_beq_refl, u64_mod,
}
use uflow.Prelude.Text.{Str, text, to_decimal}
use uflow.Recovery.Audit.State.{valid_name, all_bytes, is_token_byte}
use uflow.Recovery.Journal.Head.{
  Mode, clean, dirty, Head, mode_name, state_version, line_then, encode_head, cut_line,
  strip_return, next_line, strip_prefix, field, to_hex, parse_mode, is_inconsistent, check_head,
  parse_head, valid_broker, number,
}
use uflow.Recovery.Journal.Numerals.{
  LineByte, All-append, to_decimal_plain, hex_plain, parse_u64-to_decimal, parse_u64-to_hex,
}

abbrev pub is_plain : ℕ → Bool
is_plain c = ltb 13 c && (ltb c 128 && not (c == 43))

plain_bytes :
    (test : ℕ → Bool)
    → ((c : ℕ) → test c ≡ true → is_plain c ≡ true)
    → (s : Str) → all_bytes test s ≡ true
    → All LineByte s
unfolding all_bytes
plain_bytes test plain [] passed = tt
plain_bytes test plain (c ∷ cs) passed = (
  (ground (arith, plain c), ground (arith, plain c), ground (arith, plain c)),
  plain_bytes test plain cs (ground arith),
)

pub plain_text : (s : Str) → all_bytes is_plain s ≡ true → All LineByte s
plain_text s passed = plain_bytes is_plain (λ c e. e) s passed

pub broker_plain : (s : Str) → valid_broker s ≡ true → All LineByte s
unfolding valid_name
broker_plain s valid = plain_bytes is_token_byte (λ c e. ground arith) s (ground arith)

cut_line_plain : (x rest : Str) → All LineByte x → cut_line (x ++ (10 ∷ rest)) ≡ some (x, rest)
unfolding cut_line
cut_line_plain [] rest plain = refl
cut_line_plain (c ∷ cs) rest ((high, _, _), plain) =
    ground (arith, high, cut_line_plain cs rest plain)

strip_return_plain : (x : Str) → All LineByte x → strip_return x ≡ x
unfolding strip_return
strip_return_plain [] plain = refl
strip_return_plain (c ∷ []) ((high, _, _), plain) = ground (arith, high)
strip_return_plain (c ∷ d ∷ cs) (first, plain) = ground (arith, strip_return_plain (d ∷ cs) plain)

cut_line-nil : cut_line [] ≡ none
unfolding cut_line
cut_line-nil = refl

next_line_cut :
    (source line rest : Str)
    → cut_line source ≡ some (line, rest)
    → next_line source ≡ some (strip_return line, rest)
unfolding next_line
next_line_cut [] line rest e = absurd (ground (arith, e, cut_line-nil))
next_line_cut (c ∷ cs) line rest e = ground (arith, e)

next_line_plain : (x rest : Str) → All LineByte x → next_line (line_then x rest) ≡ some (x, rest)
next_line_plain x rest plain =
    next_line_cut (line_then x rest) x rest (cut_line_plain x rest plain)
    ∙ rw (strip_return_plain x plain) refl

strip_prefix-append : (prefix x : Str) → strip_prefix prefix (prefix ++ x) ≡ some x
unfolding strip_prefix
strip_prefix-append [] x = refl
strip_prefix-append (p ∷ ps) x = ground (arith, strip_prefix-append ps x)

field-line :
    (prefix x rest : Str)
    → all_bytes is_plain prefix ≡ true
    → All LineByte x
    → field prefix (line_then (prefix ++ x) rest) ≡ ok (x, rest)
unfolding field
field-line prefix x rest head plain =
    rw
      (
        next_line_plain (prefix ++ x) rest
            (All-append LineByte prefix x (plain_text prefix head) plain),
        strip_prefix-append prefix x,
      )
      refl

pub parse_mode-name : (m : Mode) → (parse_mode (mode_name m) ≡ ok m) × All LineByte (mode_name m)
unfolding parse_mode bytes_beq text all_bytes
parse_mode-name clean = (refl, plain_text (text "clean") refl)
parse_mode-name dirty = (refl, plain_text (text "dirty") refl)

-- The numbers of a head are numbers of 64 bits.
pub record Narrow (h : Head) : Type 0 where
  pub sequence : h.sequence < u64_mod
  pub offset : h.offset < u64_mod
  pub checksum : h.checksum < u64_mod
  pub clean_sequence : h.clean_sequence < u64_mod

pub label_version : all_bytes is_plain (text "uflow-ddr-recovery-head-v1") ≡ true
unfolding text all_bytes
label_version = refl

pub label_mode : all_bytes is_plain (text "mode=") ≡ true
unfolding text all_bytes
label_mode = refl

pub label_broker : all_bytes is_plain (text "broker=") ≡ true
unfolding text all_bytes
label_broker = refl

pub label_sequence : all_bytes is_plain (text "sequence=") ≡ true
unfolding text all_bytes
label_sequence = refl

pub label_offset : all_bytes is_plain (text "offset=") ≡ true
unfolding text all_bytes
label_offset = refl

pub label_checksum : all_bytes is_plain (text "checksum=") ≡ true
unfolding text all_bytes
label_checksum = refl

pub label_clean : all_bytes is_plain (text "clean_sequence=") ≡ true
unfolding text all_bytes
label_clean = refl

abbrev after_version : Head → Str
after_version h = line_then (text "mode=" ++ mode_name h.mode) (
    line_then (text "broker=" ++ h.broker) (
      line_then (text "sequence=" ++ to_decimal h.sequence) (
        line_then (text "offset=" ++ to_decimal h.offset) (
          line_then (text "checksum=" ++ to_hex 16 h.checksum)
            (line_then (text "clean_sequence=" ++ to_decimal h.clean_sequence) [])))))

first_line : (h : Head) → next_line (encode_head h) ≡ some (state_version, after_version h)
unfolding encode_head
first_line h =
    next_line_plain state_version (after_version h) (plain_text state_version label_version)

pub known_broker : (h : Head) → is_inconsistent h ≡ false → valid_broker h.broker ≡ true
unfolding is_inconsistent
known_broker h consistent = ground arith

check_head-encoded : (h : Head) → is_inconsistent h ≡ false → check_head (encode_head h) [] h ≡ ok h
unfolding check_head next_line
check_head-encoded h consistent = rw (bytes_beq_refl (encode_head h), consistent) refl

number-decimal : (n : ℕ) → n < u64_mod → number (to_decimal n) ≡ ok n
number-decimal n small = rw (parse_u64-to_decimal n small) refl

-- The text of a head that is consistent, with numbers of 64 bits, is parsed as the head.
pub parse_head-encode_head :
    (h : Head) → Narrow h → is_inconsistent h ≡ false → parse_head (encode_head h) ≡ ok h
unfolding parse_head
parse_head-encode_head h narrow consistent =
    let r5 = line_then (text "clean_sequence=" ++ to_decimal h.clean_sequence) [] in
    let r4 = line_then (text "checksum=" ++ to_hex 16 h.checksum) r5 in
    let r3 = line_then (text "offset=" ++ to_decimal h.offset) r4 in
    let r2 = line_then (text "sequence=" ++ to_decimal h.sequence) r3 in
    let r1 = line_then (text "broker=" ++ h.broker) r2 in
    let r0 = line_then (text "mode=" ++ mode_name h.mode) r1 in
    let (mode_read, mode_plain) = parse_mode-name h.mode in
    rw
      (
        first_line h,
        bytes_beq_refl state_version,
        field-line (text "mode=") (mode_name h.mode) r1 label_mode mode_plain,
        mode_read,
        field-line (text "broker=") h.broker r2 label_broker
            (broker_plain h.broker (known_broker h consistent)),
        field-line (text "sequence=") (to_decimal h.sequence) r3 label_sequence
            (to_decimal_plain h.sequence),
        number-decimal h.sequence narrow.sequence,
        field-line (text "offset=") (to_decimal h.offset) r4 label_offset
            (to_decimal_plain h.offset),
        number-decimal h.offset narrow.offset,
        field-line (text "checksum=") (to_hex 16 h.checksum) r5 label_checksum
            (hex_plain 16 h.checksum),
        parse_u64-to_hex h.checksum narrow.checksum,
        field-line (text "clean_sequence=") (to_decimal h.clean_sequence) [] label_clean
            (to_decimal_plain h.clean_sequence),
        number-decimal h.clean_sequence narrow.clean_sequence,
      )
      (check_head-encoded h consistent)
