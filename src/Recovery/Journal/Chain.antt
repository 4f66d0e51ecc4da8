-- ===== src/Recovery/Journal/Chain.antt =====
-- A journal of crates/uf-daemon/src/ddr_recovery_journal.rs as the list of its records, each of a kind and a
-- payload.
use uflow.Prelude.{
  ℕ, zero, suc, ◌+◌, ◌≤◌, ◌<◌, ◌≡◌, refl, List, [], ◌∷◌, ◌++◌, true, false, ok, length, drop,
  drop-append, length-append, arith, u64_mod, bytes_beq, bytes_beq_refl, All, ltb, ◌==◌, ==_refl,
}
use native.Mathlib.Nat.{add-zero}
use uflow.Recovery.Journal.Checksum.{crc64, crc64_below}
use uflow.Recovery.Journal.Frame.{
  Kind, kind_code, decode_kind, Frame, checked_bytes, encoded_bytes, max_payload, frame_magic,
}
use uflow.Recovery.Journal.Scan.{read_frame, read_sized, scan}
use uflow.Recovery.Journal.Layout.{length-encoded_bytes, encoded-Parts}

abbrev pub Entry : Type 0
Entry = Kind × List ℕ

-- A payload that a frame can hold.
abbrev pub Fits : Entry → Type 0
Fits (kind, payload) = (0 < length payload) × (length payload ≤ max_payload)

-- The frame of an entry after the sequence number and the checksum.
abbrev pub frame_of : ℕ → ℕ → Entry → Frame
frame_of sequence previous (kind, payload) = record {
  kind = kind;
  sequence = sequence + 1;
  previous = previous;
  payload = payload;
  checksum = crc64 (checked_bytes kind (sequence + 1) previous payload);
}

abbrev pub entry_bytes : ℕ → ℕ → Entry → List ℕ
entry_bytes sequence previous (kind, payload) = encoded_bytes kind (sequence + 1) previous payload

-- The bytes, the frames and the last checksum of a chain of entries after the sequence number and the checksum.
unfoldable pub chain_bytes : ℕ → ℕ → List Entry → List ℕ
chain_bytes sequence previous [] = []
chain_bytes sequence previous (e ∷ es) =
    entry_bytes sequence previous e
    ++ chain_bytes (sequence + 1) (frame_of sequence previous e).checksum es

unfoldable pub chain_frames : ℕ → ℕ → List Entry → List Frame
chain_frames sequence previous [] = []
chain_frames sequence previous (e ∷ es) =
    frame_of sequence previous e
    ∷ chain_frames (sequence + 1) (frame_of sequence previous e).checksum es

unfoldable pub chain_end : ℕ → ℕ → List Entry → ℕ
chain_end sequence previous [] = previous
chain_end sequence previous (e ∷ es) =
    chain_end (sequence + 1) (frame_of sequence previous e).checksum es

pub decode_kind-code : (kind : Kind) → decode_kind (kind_code kind) ≡ ok kind
unfolding decode_kind
decode_kind-code kind = ground arith

module _ (sequence previous : ℕ) (kind : Kind) (payload rest : List ℕ) where
  abbrev whole : List ℕ
  whole = encoded_bytes kind (sequence + 1) previous payload ++ rest

  pub length-whole : length whole ≡ 40 + length payload + length rest
  length-whole = omega (
    arith,
    length-append (encoded_bytes kind (sequence + 1) previous payload) rest,
    length-encoded_bytes kind (sequence + 1) previous payload,
  )

  read_sized-encoded :
      sequence + 1 < u64_mod
      → previous < u64_mod
      → Fits (kind, payload)
      → read_sized sequence previous kind (length payload) whole
        ≡ ok (frame_of sequence previous (kind, payload), 28 + length payload + 12)
  unfolding read_sized bytes_beq
  read_sized-encoded small_number small_chain (filled, fits) =
      let parts =
        encoded-Parts kind (sequence + 1) previous payload rest small_number small_chain fits in
      rw
        (
          parts.version,
          filled_size filled,
          small_size fits,
          offset_fits fits,
          total_fits fits,
          whole_fits,
          number_fits small_number,
          parts.number,
          parts.chain,
          parts.ending,
          parts.checksum,
          parts.checked,
          parts.body,
          ==_refl (sequence + 1),
          ==_refl previous,
          ==_refl (crc64 (checked_bytes kind (sequence + 1) previous payload)),
        )
        refl
    where
      filled_size : 0 < length payload → (length payload == 0) ≡ false
      filled_size filled = ground arith

      small_size : length payload ≤ max_payload → ltb max_payload (length payload) ≡ false
      small_size fits = ground arith

      offset_fits : length payload ≤ max_payload → ltb (28 + length payload) u64_mod ≡ true
      offset_fits fits = ground arith

      total_fits : length payload ≤ max_payload → ltb (28 + length payload + 12) u64_mod ≡ true
      total_fits fits = ground arith

      whole_fits : ltb (length whole) (28 + length payload + 12) ≡ false
      whole_fits = ground (arith, length-whole)

      number_fits : sequence + 1 < u64_mod → ltb (sequence + 1) u64_mod ≡ true
      number_fits small = ground arith

  pub read_frame-encoded :
      sequence + 1 < u64_mod
      → previous < u64_mod
      → Fits (kind, payload)
      → read_frame sequence previous whole
        ≡ ok (frame_of sequence previous (kind, payload), 28 + length payload + 12)
  unfolding read_frame
  read_frame-encoded small_number small_chain fits =
      let (_, small) = fits in
      let parts =
        encoded-Parts kind (sequence + 1) previous payload rest small_number small_chain small in
      rw
        (
          parts.magic,
          parts.code,
          parts.size,
          decode_kind-code kind,
          read_sized-encoded small_number small_chain fits,
        )
        (ground (arith, length-whole, bytes_beq_refl frame_magic))

scan_turn :
    (fuel sequence previous total final last : ℕ) (frame : Frame) (frames : List Frame)
    (bytes : List ℕ)
    → 0 < length bytes
    → read_frame sequence previous bytes ≡ ok (frame, total)
    → scan fuel frame.sequence frame.checksum (drop total bytes) ≡ ok (frames, final, last)
    → scan (suc fuel) sequence previous bytes ≡ ok (frame ∷ frames, final, last)
unfolding scan
scan_turn fuel sequence previous total final last frame frames [] filled here there =
    absurd (ground arith)
scan_turn fuel sequence previous total final last frame frames (b ∷ bs) filled here there =
    rw (here, there) refl

drop_whole :
    (sequence previous : ℕ) (kind : Kind) (payload rest : List ℕ)
    → drop (28 + length payload + 12) (encoded_bytes kind sequence previous payload ++ rest) ≡ rest
drop_whole sequence previous kind payload rest =
    rw size (drop-append (encoded_bytes kind sequence previous payload) rest)
  where
    size : 28 + length payload + 12 ≡ length (encoded_bytes kind sequence previous payload)
    size = omega (arith, length-encoded_bytes kind sequence previous payload)

-- The frames that are read from the bytes of a chain of entries, each with a payload of 1 to 8,192 bytes, are its
-- frames, with its last sequence number and checksum, if there is fuel for each entry, the sequence numbers stay
-- below 2 ^ 64 and the checksum before the chain is below 2 ^ 64.
pub scan-chain_bytes :
    (fuel sequence previous : ℕ) (es : List Entry)
    → length es ≤ fuel
    → sequence + length es < u64_mod
    → previous < u64_mod
    → All Fits es
    → scan fuel sequence previous (chain_bytes sequence previous es)
      ≡ ok (chain_frames sequence previous es, sequence + length es, chain_end sequence previous es)
unfolding scan chain_bytes chain_frames chain_end
scan-chain_bytes fuel sequence previous [] enough small chained fits = rw (add-zero sequence) refl
scan-chain_bytes zero sequence previous (e ∷ es) enough small chained fits = absurd (omega arith)
scan-chain_bytes (suc fuel) sequence previous ((kind, payload) ∷ es) enough small chained
      (fit, fits) =
    let sum = crc64 (checked_bytes kind (sequence + 1) previous payload) in
    let rest = chain_bytes (sequence + 1) sum es in
    let later =
      scan-chain_bytes fuel (sequence + 1) sum es (omega arith) (omega arith)
        (crc64_below (checked_bytes kind (sequence + 1) previous payload)) fits in
    scan_turn fuel sequence previous (28 + length payload + 12) (sequence + suc (length es))
      (chain_end (sequence + 1) sum es) (frame_of sequence previous (kind, payload))
      (chain_frames (sequence + 1) sum es)
      (encoded_bytes kind (sequence + 1) previous payload ++ rest)
      (omega (arith, length-whole sequence previous kind payload rest))
      (read_frame-encoded sequence previous kind payload rest (omega arith) chained fit)
      (rw (drop_whole (sequence + 1) previous kind payload rest, add_suc) later)
  where
    add_suc : sequence + suc (length es) ≡ sequence + 1 + length es
    add_suc = omega arith
