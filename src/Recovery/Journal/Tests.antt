-- ===== src/Recovery/Journal/Tests.antt =====
-- Runs of the journal of crates/uf-daemon/src/ddr_recovery_journal.rs at small inputs.
use uflow.Prelude.{◌+◌, ◌≡◌, ◌≢◌, refl, [], ◌∷◌, true, false, ok, err, arith, bytes_beq}
use uflow.Prelude.Text.{Str, text, is_empty}
use uflow.Bridge.Wire.{to_be_bytes}
use uflow.Recovery.Audit.State.{valid_name, all_bytes}
use uflow.Recovery.Journal.Frame.{
  IoError, os_error, out_of_fuel, permission_denied, view_commit, broker_drained, checked_bytes,
  encoded_bytes,
}
use uflow.Recovery.Journal.Scan.{scan}
use uflow.Recovery.Journal.Fuel.{scan_terminates}
use uflow.Recovery.Journal.Chain.{Entry, chain_bytes, chain_frames, chain_end, scan-chain_bytes}
use uflow.Recovery.Journal.Head.{
  dirty, Head, genesis, encode_head, parse_head, same_head, is_inconsistent,
}
use uflow.Recovery.Journal.HeadTrip.{parse_head-encode_head}
use uflow.Recovery.Journal.Store.{
  AnchoredJournal, verify, after_head_truncate, frame_at, last_frame, is_unanchored, is_unclean,
}
use uflow.Recovery.Journal.Append.{append_inner, check_broker, no_fault}
use uflow.Recovery.Journal.Ledger.{Logs}
use uflow.Recovery.Journal.Grown.{Accepted, grown}
use uflow.Recovery.Journal.Faults.{fault_at, Reopens, append_inner-fault, append_inner-poisoned}

abbrev first_journal : AnchoredJournal
first_journal = record {
  journal = [];
  state = encode_head genesis;
  head = genesis;
  poisoned = false;
}

abbrev broker_one : Str
broker_one = text "k-1"

abbrev drain_entry : Entry
drain_entry = (broker_drained, 1 ∷ 2 ∷ 3 ∷ [])

abbrev drained_journal : AnchoredJournal
drained_journal = grown first_journal broker_one false drain_entry

abbrev dirty_head : Head
dirty_head = record {
  mode = dirty;
  broker = broker_one;
  sequence = 12;
  offset = 600;
  checksum = 0xab00_0000_0000_0001;
  clean_sequence = 4;
}

first_held : Logs first_journal []
unfolding chain_bytes chain_frames chain_end is_inconsistent valid_name all_bytes is_empty text
    same_head bytes_beq is_unanchored is_unclean frame_at last_frame
first_held = record {
  live = refl;
  bytes = refl;
  kept = refl;
  counted = refl;
  sized = refl;
  summed = refl;
  fitting = tt;
  bounded = omega arith;
  consistent = refl;
  anchored = refl;
  ended = refl;
}

first_takes : Accepted first_journal [] broker_one drain_entry false false
unfolding check_broker valid_name all_bytes is_empty text bytes_beq encoded_bytes checked_bytes
    to_be_bytes
first_takes = record {
  known = refl;
  fit = (omega arith, omega arith);
  room = omega arith;
  placed = refl;
}

scan-chain_bytes_example :
    scan 1 0 0 (chain_bytes 0 0 (drain_entry ∷ []))
    ≡ ok (chain_frames 0 0 (drain_entry ∷ []), 1, chain_end 0 0 (drain_entry ∷ []))
scan-chain_bytes_example =
    scan-chain_bytes 1 0 0 (drain_entry ∷ []) (omega arith) (omega arith) (omega arith)
      ((omega arith, omega arith), tt)

parse_head-encode_head_example : parse_head (encode_head dirty_head) ≡ ok dirty_head
unfolding is_inconsistent valid_name all_bytes is_empty text same_head bytes_beq
parse_head-encode_head_example =
    parse_head-encode_head dirty_head
      (record {
        sequence = omega arith;
        offset = omega arith;
        checksum = omega arith;
        clean_sequence = omega arith;
      })
      refl

append_inner-fault_example :
    (k : AnchoredJournal) × (append_inner
        (ok tt)
        (ok tt)
        broker_one
        broker_drained
        (1 ∷ 2 ∷ 3 ∷ [])
        false
        false
        (fault_at after_head_truncate (os_error 28))
        first_journal
      ≡ (err (os_error 28), k))
    × (k.poisoned ≡ true)
    × Reopens first_journal drained_journal k
append_inner-fault_example =
    append_inner-fault first_journal [] broker_one broker_drained (1 ∷ 2 ∷ 3 ∷ []) false false
      after_head_truncate (os_error 28) (ok tt) first_held first_takes

append_inner-poisoned_example :
    (verify (ok tt) (record drained_journal { poisoned = true }) ≡ (
      err (permission_denied (text "recovery journal poisoned")),
      record drained_journal { poisoned = true },
    ))
    × ((e : IoError) × (append_inner
            (ok tt)
            (ok tt)
            broker_one
            view_commit
            (5 ∷ [])
            false
            false
            no_fault
            (record drained_journal { poisoned = true })
          ≡ (err e, record drained_journal { poisoned = true })))
append_inner-poisoned_example =
    append_inner-poisoned (record drained_journal { poisoned = true }) (ok tt) (ok tt) broker_one
      view_commit (5 ∷ []) false false no_fault refl

scan_terminates_example :
    (scan 2 0 0 (chain_bytes 0 0 (drain_entry ∷ [])) ≢ err out_of_fuel)
    × (scan 2 0 0 (chain_bytes 0 0 (drain_entry ∷ []))
        ≡ scan (2 + 7) 0 0 (chain_bytes 0 0 (drain_entry ∷ [])))
unfolding chain_bytes encoded_bytes checked_bytes to_be_bytes
scan_terminates_example = scan_terminates 2 7 0 0 (chain_bytes 0 0 (drain_entry ∷ [])) (omega arith)
