-- ===== src/Recovery/Journal/Ledger.antt =====
-- What the two files of crates/uf-daemon/src/ddr_recovery_journal.rs hold: the chain of the records, and the head.
use uflow.Prelude.{
  ℕ, zero, suc, ◌+◌, ◌≤◌, ◌<◌, ◌≡◌, refl, sym, ap, ◌∙◌, List, [], ◌∷◌, true, false, Result, ok, All,
  arith, ltb, ◌==◌, length, take, bytes_beq_refl, u64_mod,
}
use native.Mathlib.Nat.{suc-add}
use uflow.Recovery.Journal.Checksum.{crc64, crc64_below}
use uflow.Recovery.Journal.Frame.{IoError, checked_bytes, max_journal}
use uflow.Recovery.Journal.Chain.{
  Entry, Fits, chain_bytes, chain_frames, chain_end, scan-chain_bytes, length-whole,
}
use uflow.Recovery.Journal.Head.{
  Mode, clean, dirty, Head, same_head, same_mode, encode_head, is_inconsistent,
}
use uflow.Recovery.Journal.HeadTrip.{Narrow}
use uflow.Recovery.Journal.HeadText.{read_head-encode_head}
use uflow.Recovery.Journal.Ops.{poisoning_ok}
use uflow.Recovery.Journal.Store.{
  AnchoredJournal, parse_frames, check_frames, check_head_of, read_head, verify, verify_inner,
  opening, is_unanchored, is_unclean, poisoning, ◌>>=◌, ◌>>◌,
}

-- The journal is the chain of the entries and the head describes it.
pub record Logs (j : AnchoredJournal) (es : List Entry) : Type 0 where
  pub live : j.poisoned ≡ false
  pub bytes : j.journal ≡ chain_bytes 0 0 es
  pub kept : j.state ≡ encode_head j.head
  pub counted : j.head.sequence ≡ length es
  pub sized : j.head.offset ≡ length (chain_bytes 0 0 es)
  pub summed : j.head.checksum ≡ chain_end 0 0 es
  pub fitting : All Fits es
  pub bounded : j.head.offset ≤ max_journal
  pub consistent : is_inconsistent j.head ≡ false
  pub anchored : is_unanchored j.head (chain_frames 0 0 es) ≡ false
  pub ended : is_unclean j.head (chain_frames 0 0 es) ≡ false

pub length-chain_bytes :
    (sequence previous : ℕ) (es : List Entry)
    → length es ≤ length (chain_bytes sequence previous es)
unfolding chain_bytes
length-chain_bytes sequence previous [] = omega arith
length-chain_bytes sequence previous ((kind, payload) ∷ es) =
    let sum = crc64 (checked_bytes kind (sequence + 1) previous payload) in
    omega (
      arith,
      length-whole sequence previous kind payload (chain_bytes (sequence + 1) sum es),
      length-chain_bytes (sequence + 1) sum es,
    )

pub chain_end_below :
    (sequence previous : ℕ) (es : List Entry)
    → previous < u64_mod
    → chain_end sequence previous es < u64_mod
unfolding chain_end
chain_end_below sequence previous [] small = small
chain_end_below sequence previous ((kind, payload) ∷ es) small =
    chain_end_below (sequence + 1) (crc64 (checked_bytes kind (sequence + 1) previous payload)) es
      (crc64_below (checked_bytes kind (sequence + 1) previous payload))

same_head_refl : (h : Head) → same_head h h ≡ true
unfolding same_head
same_head_refl h = ground (arith, bytes_beq_refl h.broker, same_mode_refl h.mode)
  where
    same_mode_refl : (m : Mode) → same_mode m m ≡ true
    same_mode_refl clean = refl
    same_mode_refl dirty = refl

take_past : (n : ℕ) (bytes : List ℕ) → n ≡ length bytes → take (n + 1) bytes ≡ bytes
take_past n [] e = ground arith
take_past zero (b ∷ bs) e = absurd (omega arith)
take_past (suc n) (b ∷ bs) e = rw suc-add (ap (◌∷◌ b) (take_past n bs (omega (arith, e))))

-- A live journal is verified, and an operation that succeeds does not poison it.
pub verify-live :
    (pins : Result IoError (Unit {0})) (j : AnchoredJournal)
    → j.poisoned ≡ false
    → verify pins j ≡ poisoning (verify_inner pins) j
unfolding verify
verify-live pins j live = ground (arith, live)

module _ (j : AnchoredJournal) (es : List Entry) (logs : Logs j es) where
  pub few : length es ≤ max_journal
  few = omega (arith, logs.bounded, logs.sized, length-chain_bytes 0 0 es)

  pub head-Narrow : Narrow j.head
  unfolding is_inconsistent
  head-Narrow = record {
    sequence = omega (arith, logs.counted, few);
    offset = omega (arith, logs.bounded);
    checksum = rw logs.summed (chain_end_below 0 0 es (omega arith));
    clean_sequence = ground (arith, logs.consistent, logs.counted, few);
  }

  pub head_read : read_head j.state ≡ ok j.head
  head_read = rw logs.kept (read_head-encode_head j.head head-Narrow logs.consistent)

  frames_checked :
      check_frames j.head (chain_frames 0 0 es, 0 + length es, chain_end 0 0 es)
      ≡ ok (chain_frames 0 0 es)
  unfolding check_frames
  frames_checked = rw (logs.anchored, logs.ended, same_count, same_sum) refl
    where
      same_count : (0 + length es == j.head.sequence) ≡ true
      same_count = ground (arith, logs.counted)

      same_sum : (chain_end 0 0 es == j.head.checksum) ≡ true
      same_sum = ground (arith, logs.summed)

  pub frames_parsed : parse_frames j.journal j.head ≡ ok (chain_frames 0 0 es)
  unfolding parse_frames
  frames_parsed =
      rw
        (
          logs.bytes,
          same_size,
          within,
          scan-chain_bytes (length (chain_bytes 0 0 es)) 0 0 es (length-chain_bytes 0 0 es)
              (omega (arith, few)) (omega arith) logs.fitting,
        )
        frames_checked
    where
      same_size : (length (chain_bytes 0 0 es) == j.head.offset) ≡ true
      same_size = ground (arith, logs.sized)

      within : ltb max_journal j.head.offset ≡ false
      within = ground (arith, logs.bounded)

  all_taken : take (j.head.offset + 1) j.journal ≡ j.journal
  all_taken = take_past j.head.offset j.journal (logs.sized ∙ ap length (sym logs.bytes))

  same_length : (length j.journal == j.head.offset) ≡ true
  same_length = ground (arith, logs.sized, logs.bytes)

  head_checked : check_head_of j j.head ≡ ok (chain_frames 0 0 es)
  unfolding check_head_of
  head_checked = rw (same_head_refl j.head, same_length, all_taken) frames_parsed

  inner_verified : verify_inner (ok tt) j ≡ (ok (chain_frames 0 0 es), j)
  unfolding verify_inner ◌>>=◌ ◌>>◌
  inner_verified = rw (◌>>=◌, ◌>>◌, head_read, head_checked) refl

  pub verify-Logs : verify (ok tt) j ≡ (ok (chain_frames 0 0 es), j)
  verify-Logs =
      verify-live (ok tt) j logs.live ∙ poisoning_ok (verify_inner (ok tt)) j inner_verified

  -- The files of a journal in use open as the journal.
  pub opening-Logs : opening (ok tt) j.journal j.state ≡ ok j
  unfolding opening
  opening-Logs =
      rw (opening, head_read, same_length, within, all_taken, frames_parsed)
        (ground (arith, logs.live))
    where
      within : ltb max_journal j.head.offset ≡ false
      within = ground (arith, logs.bounded)
