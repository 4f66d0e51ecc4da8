-- ===== src/Recovery/Journal/Layout.antt =====
-- Where the parts of an encoded frame of crates/uf-daemon/src/ddr_recovery_journal.rs lie.
use uflow.Prelude.{
  ℕ, ◌+◌, ◌-◌, ◌^◌, ◌≤◌, ◌<◌, ◌≡◌, refl, sym, ap, ◌∙◌, List, ◌++◌, length, take, drop, drop-add,
  take-append, drop-append, append_assoc, length-append, arith, u64_mod,
}
use uflow.Bridge.Wire.{to_be_bytes}
use uflow.Bridge.Reads.{length-to_be_bytes, from_be_bytes-to_be_bytes}
use uflow.Recovery.Journal.Checksum.{crc64, crc64_below}
use uflow.Recovery.Journal.Frame.{
  Kind, kind_code, frame_magic, end_magic, format_version, checked_bytes, encoded_bytes,
  max_payload,
}
use uflow.Recovery.Journal.Scan.{slice, number_at}

module _ (bytes : List ℕ) where
  -- After a part of a known length begins the next one.
  next_part :
      (n m : ℕ) (part others : List ℕ)
      → drop n bytes ≡ part ++ others
      → length part ≡ m
      → drop (n + m) bytes ≡ others
  next_part n m part others here size =
      drop-add n m bytes ∙ ap (drop m) here ∙ rw (sym size) (drop-append part others)

  part_here :
      (n m : ℕ) (part others : List ℕ)
      → drop n bytes ≡ part ++ others
      → length part ≡ m
      → slice n (n + m) bytes ≡ part
  part_here n m part others here size = rw (cancel_add, here, sym size) (take-append part others)
    where
      cancel_add : n + m - n ≡ m
      cancel_add = omega arith

  number_here :
      (n k value : ℕ) (others : List ℕ)
      → drop n bytes ≡ to_be_bytes k value ++ others
      → value < 256 ^ k
      → number_at n (n + k) bytes ≡ value
  number_here n k value others here small =
      rw (part_here n k (to_be_bytes k value) others here (length-to_be_bytes k value))
        (from_be_bytes-to_be_bytes k value small)

-- The parts of a frame, read from the front of `bytes`.
pub record Parts (bytes : List ℕ) (kind : Kind) (sequence previous : ℕ) (payload : List ℕ)
    : Type 0 where
  pub magic : take 4 bytes ≡ frame_magic
  pub version : number_at 4 6 bytes ≡ format_version
  pub code : number_at 6 8 bytes ≡ kind_code kind
  pub number : number_at 8 16 bytes ≡ sequence
  pub chain : number_at 16 24 bytes ≡ previous
  pub size : number_at 24 28 bytes ≡ length payload
  pub body : slice 28 (28 + length payload) bytes ≡ payload
  pub checksum :
      number_at (28 + length payload) (28 + length payload + 8) bytes
      ≡ crc64 (checked_bytes kind sequence previous payload)
  pub ending : slice (28 + length payload + 8) (28 + length payload + 12) bytes ≡ end_magic
  pub checked : take (28 + length payload) bytes ≡ checked_bytes kind sequence previous payload

module _ (kind : Kind) (sequence previous : ℕ) (payload : List ℕ) where
  pub length-checked_bytes :
      length (checked_bytes kind sequence previous payload) ≡ 28 + length payload
  unfolding checked_bytes
  length-checked_bytes =
      let version = to_be_bytes 2 format_version in
      let code = to_be_bytes 2 (kind_code kind) in
      let number = to_be_bytes 8 sequence in
      let chain = to_be_bytes 8 previous in
      let size = to_be_bytes 4 (length payload) in
      omega (
        arith,
        length-append version (code ++ (number ++ (chain ++ (size ++ payload)))),
        length-append code (number ++ (chain ++ (size ++ payload))),
        length-append number (chain ++ (size ++ payload)),
        length-append chain (size ++ payload),
        length-append size payload,
        length-to_be_bytes 2 format_version,
        length-to_be_bytes 2 (kind_code kind),
        length-to_be_bytes 8 sequence,
        length-to_be_bytes 8 previous,
        length-to_be_bytes 4 (length payload),
      )

  pub length-encoded_bytes :
      length (encoded_bytes kind sequence previous payload) ≡ 40 + length payload
  unfolding encoded_bytes
  length-encoded_bytes =
      let covered = checked_bytes kind sequence previous payload in
      omega (
        arith,
        length-append covered (to_be_bytes 8 (crc64 covered) ++ end_magic),
        length-append (to_be_bytes 8 (crc64 covered)) end_magic,
        length-to_be_bytes 8 (crc64 covered),
        length-checked_bytes,
      )

  module _ (rest : List ℕ) where
    abbrev after_checked : List ℕ
    after_checked =
        to_be_bytes 8 (crc64 (checked_bytes kind sequence previous payload)) ++ (end_magic ++ rest)

    -- The frame and what follows, as one chain of parts.
    regrouped :
        encoded_bytes kind sequence previous payload ++ rest
        ≡ checked_bytes kind sequence previous payload ++ after_checked
    unfolding encoded_bytes
    regrouped = simp append_assoc

    unchecked :
        checked_bytes kind sequence previous payload ++ after_checked
        ≡ frame_magic
          ++ (to_be_bytes 2 format_version
              ++ (to_be_bytes 2 (kind_code kind)
                  ++ (to_be_bytes 8 sequence
                      ++ (to_be_bytes 8 previous
                          ++ (to_be_bytes 4 (length payload) ++ (payload ++ after_checked))))))
    unfolding checked_bytes
    unchecked = simp append_assoc

    pub encoded-Parts :
        sequence < u64_mod
        → previous < u64_mod
        → length payload ≤ max_payload
        → Parts
            (encoded_bytes kind sequence previous payload ++ rest)
            kind
            sequence
            previous
            payload
    encoded-Parts small_number small_chain small_size =
        let bytes = encoded_bytes kind sequence previous payload ++ rest in
        let tail = payload ++ after_checked in
        let size = to_be_bytes 4 (length payload) ++ tail in
        let chain = to_be_bytes 8 previous ++ size in
        let number = to_be_bytes 8 sequence ++ chain in
        let code = to_be_bytes 2 (kind_code kind) ++ number in
        let version = to_be_bytes 2 format_version ++ code in
        let whole = regrouped ∙ unchecked in
        let at_version = ap (drop 4) whole in
        let at_code =
          next_part bytes 4 2 (to_be_bytes 2 format_version) code at_version
            (length-to_be_bytes 2 1) in
        let at_number =
          next_part bytes 6 2 (to_be_bytes 2 (kind_code kind)) number at_code
            (length-to_be_bytes 2 (kind_code kind)) in
        let at_chain =
          next_part bytes 8 8 (to_be_bytes 8 sequence) chain at_number
            (length-to_be_bytes 8 sequence) in
        let at_size =
          next_part bytes 16 8 (to_be_bytes 8 previous) size at_chain
            (length-to_be_bytes 8 previous) in
        let at_body =
          next_part bytes 24 4 (to_be_bytes 4 (length payload)) tail at_size
            (length-to_be_bytes 4 (length payload)) in
        let at_checksum = next_part bytes 28 (length payload) payload after_checked at_body refl in
        let sum = crc64 (checked_bytes kind sequence previous payload) in
        let at_ending =
          next_part bytes (28 + length payload) 8 (to_be_bytes 8 sum) (end_magic ++ rest)
            at_checksum (length-to_be_bytes 8 sum) in
        record {
          magic = ap (take 4) whole;
          version = number_here bytes 4 2 format_version code at_version (omega arith);
          code = number_here bytes 6 2 (kind_code kind) number at_code (code_below kind);
          number = number_here bytes 8 8 sequence chain at_number small_number;
          chain = number_here bytes 16 8 previous size at_chain small_chain;
          size = number_here bytes 24 4 (length payload) tail at_size (omega arith);
          body = part_here bytes 28 (length payload) payload after_checked at_body refl;
          checksum =
              number_here bytes (28 + length payload) 8 sum (end_magic ++ rest) at_checksum
                (crc64_below (checked_bytes kind sequence previous payload));
          ending =
              rw end_at (part_here bytes (28 + length payload + 8) 4 end_magic rest at_ending refl);
          checked =
              ap (take (28 + length payload)) regrouped
              ∙ rw (sym length-checked_bytes)
                  (take-append (checked_bytes kind sequence previous payload) after_checked);
        }
      where
        end_at : 28 + length payload + 12 ≡ 28 + length payload + 8 + 4
        end_at = omega arith

        code_below : (k : Kind) → kind_code k < 256 ^ 2
        code_below k = ground arith
