-- ===== src/Recovery/Journal/Scan.antt =====
-- The frames of a journal, `parse_frames` of crates/uf-daemon/src/ddr_recovery_journal.rs.
use uflow.Prelude.{
  ℕ, zero, suc, ◌+◌, ◌-◌, List, [], ◌∷◌, not, ◌||◌, Result, ok, err, ◌>>=◌, ◌>>◌, fail_if, ok_or,
  ◌==◌, ltb, length, take, drop, checked_add, bytes_beq,
}
use uflow.Prelude.Text.{text}
use uflow.Bridge.Wire.{from_be_bytes}
use uflow.Recovery.Journal.Checksum.{crc64}
use uflow.Recovery.Journal.Frame.{
  IoError, invalid_data, out_of_fuel, Kind, decode_kind, Frame, frame_magic, end_magic,
  format_version, header_len, trailer_len, max_payload,
}

-- `bytes[from..to]`
abbrev pub slice : ℕ → ℕ → List ℕ → List ℕ
slice from to bytes = take (to - from) (drop from bytes)

-- `uN::from_be_bytes(bytes[from..to])`
abbrev pub number_at : ℕ → ℕ → List ℕ → ℕ
number_at from to bytes = from_be_bytes (slice from to bytes)

-- The frame of a kind, with `len` bytes of payload, at the front of what remains; and where it ends.
unfoldable pub read_sized : ℕ → ℕ → Kind → ℕ → List ℕ → Result IoError (Frame × ℕ)
read_sized sequence previous kind len remaining = do
  fail_if (not (number_at 4 6 remaining == format_version) || len == 0 || ltb max_payload len)
      (invalid_data (text "invalid recovery frame version or length"))
  checksum_offset ←
      ok_or (checked_add header_len len) (invalid_data (text "recovery frame size overflow"))
  total ←
      ok_or (checked_add checksum_offset trailer_len)
        (invalid_data (text "recovery frame size overflow"))
  fail_if (ltb (length remaining) total) (invalid_data (text "truncated recovery frame payload"))
  next ← ok_or (checked_add sequence 1) (invalid_data (text "recovery sequence overflow"))
  fail_if (not (number_at 8 16 remaining == next) || not (number_at 16 24 remaining == previous))
      (invalid_data (text "recovery frame sequence or chain mismatch"))
  fail_if
      (not (bytes_beq (slice (checksum_offset + 8) total remaining) end_magic)
        || not (
            number_at checksum_offset (checksum_offset + 8) remaining
            == crc64 (take checksum_offset remaining)))
      (invalid_data (text "recovery frame checksum or terminator mismatch"))
  ok (
    record {
      kind = kind;
      sequence = next;
      previous = previous;
      payload = slice header_len checksum_offset remaining;
      checksum = number_at checksum_offset (checksum_offset + 8) remaining;
    },
    total,
  )

-- A turn of the loop on what remains.
unfoldable pub read_frame : ℕ → ℕ → List ℕ → Result IoError (Frame × ℕ)
read_frame sequence previous remaining = do
  fail_if
      (ltb (length remaining) (header_len + trailer_len)
        || not (bytes_beq (take 4 remaining) frame_magic))
      (invalid_data (text "truncated or invalid recovery frame"))
  kind ← decode_kind (number_at 6 8 remaining)
  read_sized sequence previous kind (number_at 24 28 remaining) remaining

-- The loop, with the frames that it pushes and the last sequence number and checksum. The fuel is the
-- number of turns that are left; a turn takes 41 bytes or more.
unfoldable pub scan : ℕ → ℕ → ℕ → List ℕ → Result IoError (List Frame × ℕ × ℕ)
scan fuel sequence previous [] = ok ([], sequence, previous)
scan zero sequence previous (b ∷ bs) = err out_of_fuel
scan (suc fuel) sequence previous (b ∷ bs) = do
  (frame, total) ← read_frame sequence previous (b ∷ bs)
  (frames, final, checksum) ← scan fuel frame.sequence frame.checksum (drop total (b ∷ bs))
  ok (frame ∷ frames, final, checksum)
