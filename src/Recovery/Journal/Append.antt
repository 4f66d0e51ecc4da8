-- ===== src/Recovery/Journal/Append.antt =====
-- Appending to the journal of crates/uf-daemon/src/ddr_recovery_journal.rs. The reads, writes and syncs of the
-- system succeed; `hook` can fail between them.
use uflow.Prelude.{
  ℕ, ◌+◌, ◌-◌, List, [], ◌++◌, Bool, true, false, not, ◌&&◌, ◌||◌, Option, none, some, Result, ok,
  err, ok_or, fail_if, leb, length, take, drop, checked_add, if◌then◌else◌, bytes_beq,
}
use uflow.Prelude.Text.{Str, text}
use uflow.Recovery.Journal.Frame.{
  IoError, invalid_data, permission_denied, Kind, clean_checkpoint, recovery_audit, recovery_commit,
  broker_drained, same_kind, Frame, encode_frame, max_journal, header_len, trailer_len,
}
use uflow.Recovery.Journal.Head.{clean, dirty, Head, is_dirty, encode_head, valid_broker}
use uflow.Recovery.Journal.Scan.{number_at}
use uflow.Recovery.Journal.Store.{
  Op, ◌>>=◌, ◌>>◌, lift, this, poisoning, verify, WriteStage, before_journal_write,
  after_partial_journal_write, before_journal_sync, after_journal_sync, after_head_truncate,
  before_head_sync, after_head_sync, last_frame, is_other_kind,
}

-- `seek` and `write_all` on the journal.
abbrev pub write_journal : ℕ → List ℕ → Op (Unit {0})
write_journal offset bytes j = (
  ok tt,
  record j { journal = take offset j.journal ++ (bytes ++ drop (offset + length bytes) j.journal) },
)

-- `set_len(0)` and `write_all` on the head.
abbrev pub write_state : Str → Op (Unit {0})
write_state state j = (ok tt, record j { state = state })

-- The writes of `append_inner`.
unfoldable pub write_all :
    (WriteStage → Result IoError (Unit {0})) → ℕ → List ℕ → Head → Op (Unit {0})
write_all hook offset frame next = do
  lift (hook before_journal_write)
  write_journal offset (take header_len frame)
  lift (hook after_partial_journal_write)
  write_journal (offset + header_len) (drop header_len frame)
  lift (hook before_journal_sync)
  lift (hook after_journal_sync)
  write_state []
  lift (hook after_head_truncate)
  write_state (encode_head next)
  lift (hook before_head_sync)
  lift (hook after_head_sync)

-- A clean checkpoint must follow the drain of the broker that has the dirty head.
unfoldable pub is_misplaced : Head → List Frame → Str → Kind → Bool → Bool
is_misplaced head frames broker kind recovery =
    not (same_kind kind clean_checkpoint)
    || not (is_dirty head.mode)
    || not (bytes_beq head.broker broker)
    || is_other_kind (if recovery then recovery_commit else broker_drained) (last_frame frames)

-- `offset.checked_add(len).filter(|n| *n <= limit)`
abbrev pub within : ℕ → Option ℕ → Option ℕ
within limit none = none
within limit (some n) = if leb n limit then some n else none

-- The head after a frame.
abbrev pub next_head : Head → Str → Bool → ℕ → ℕ → List ℕ → Head
next_head head broker checkpoint sequence offset frame = record {
  mode = if checkpoint then clean else dirty;
  broker = broker;
  sequence = sequence;
  offset = offset;
  checksum = number_at (length frame - trailer_len) (length frame - trailer_len + 8) frame;
  clean_sequence = if checkpoint then sequence else head.clean_sequence;
}

abbrev pub set_head : Head → Op (Unit {0})
set_head head j = (ok tt, record j { head = head })

-- The tests of `append_inner` before it verifies the files.
unfoldable pub check_broker : Head → Str → Result IoError (Unit {0})
check_broker head broker =
    if not (valid_broker broker) || bytes_beq broker (text "none")
    then err (invalid_data (text "invalid broker incarnation"))
    else if is_dirty head.mode && not (bytes_beq head.broker broker)
    then err (permission_denied (text "dirty head belongs to another broker"))
    else ok tt

-- `append_inner`; the files are looked at before and after the writes.
unfoldable pub append_inner :
    Result IoError (Unit {0})
    → Result IoError (Unit {0})
    → Str
    → Kind
    → List ℕ
    → Bool
    → Bool
    → (WriteStage → Result IoError (Unit {0}))
    → Op Head
append_inner before after broker kind payload checkpoint recovery hook = do
  j ← this
  lift (check_broker j.head broker)
  frames ← verify before
  lift (
      fail_if (checkpoint && is_misplaced j.head frames broker kind recovery)
        (invalid_data (text "clean checkpoint is not after this broker's drain")))
  sequence ←
      lift
        (ok_or (checked_add j.head.sequence 1) (invalid_data (text "recovery sequence overflow")))
  frame ← lift (encode_frame kind sequence j.head.checksum payload)
  offset ← poisoning (
      lift (
        ok_or (within max_journal (checked_add j.head.offset (length frame)))
          (invalid_data (text "recovery journal limit reached"))))
  poisoning (
      write_all hook j.head.offset frame (next_head j.head broker checkpoint sequence offset frame))
  set_head (next_head j.head broker checkpoint sequence offset frame)
  again ← verify after
  lift (ok (next_head j.head broker checkpoint sequence offset frame))

abbrev pub no_fault : WriteStage → Result IoError (Unit {0})
no_fault stage = ok tt

abbrev pub is_dedicated : Kind → Bool
is_dedicated kind =
    same_kind kind clean_checkpoint
    || same_kind kind recovery_audit
    || same_kind kind recovery_commit

-- `append_dirty`
unfoldable pub append_dirty :
    Result IoError (Unit {0}) → Result IoError (Unit {0}) → Str → Kind → List ℕ → Op Head
append_dirty before after broker kind payload =
    if is_dedicated kind
    then lift (err (invalid_data (text "checkpoint or recovery requires its dedicated path")))
    else append_inner before after broker kind payload false false no_fault

-- `append_clean_after_drain`, with the broker and the payload of the checkpoint.
unfoldable pub append_clean_after_drain :
    Result IoError (Unit {0}) → Result IoError (Unit {0}) → Str → List ℕ → Op Head
append_clean_after_drain before after broker payload =
    append_inner before after broker clean_checkpoint payload true false no_fault
