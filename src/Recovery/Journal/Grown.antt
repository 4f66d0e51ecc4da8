-- ===== src/Recovery/Journal/Grown.antt =====
-- The journal of crates/uf-daemon/src/ddr_recovery_journal.rs after an append.
use uflow.Prelude.{
  ℕ, ◌+◌, ◌-◌, ◌≤◌, ◌≡◌, refl, sym, ◌∙◌, List, [], ◌∷◌, ◌++◌, Bool, true, false, ◌&&◌, some, ok,
  arith, length, length-append, Bool-cases, inl, inr, Option-cases,
}
use native.Mathlib.Nat.{zero-add}
use uflow.Prelude.Text.{Str}
use uflow.Recovery.Journal.Frame.{Kind, clean_checkpoint, Frame, max_journal}
use uflow.Recovery.Journal.Layout.{length-encoded_bytes}
use uflow.Recovery.Journal.Chain.{Entry, Fits, frame_of, entry_bytes, chain_bytes, chain_frames}
use uflow.Recovery.Journal.Head.{Head, encode_head, is_inconsistent}
use uflow.Recovery.Journal.Store.{
  AnchoredJournal, frame_at, is_other_kind, is_unanchored, is_unclean,
}
use uflow.Recovery.Journal.Append.{next_head, check_broker, is_misplaced}
use uflow.Recovery.Journal.Ledger.{Logs, few, chain_end_below}
use uflow.Recovery.Journal.Grow.{
  chain_bytes-append, chain_frames-append, chain_end-append, length-chain_frames, frame_at-append,
  frame_at-length, last_frame-append, All-snoc, checksum_of_frame,
}

-- The bytes of the entry, at the end of the journal.
abbrev pub entry_frame : AnchoredJournal → Entry → List ℕ
entry_frame j e = entry_bytes j.head.sequence j.head.checksum e

-- The head and the journal after the entry.
abbrev pub grown_head : AnchoredJournal → Str → Bool → Entry → Head
grown_head j broker checkpoint e =
    next_head j.head broker checkpoint (j.head.sequence + 1)
      (j.head.offset + length (entry_frame j e)) (entry_frame j e)

abbrev pub grown : AnchoredJournal → Str → Bool → Entry → AnchoredJournal
grown j broker checkpoint e = record {
  journal = j.journal ++ entry_frame j e;
  state = encode_head (grown_head j broker checkpoint e);
  head = grown_head j broker checkpoint e;
  poisoned = j.poisoned;
}

-- What `append_inner` asks of its arguments in a journal that holds `es`.
pub record Accepted (j : AnchoredJournal) (es : List Entry) (broker : Str) (e : Entry)
    (checkpoint recovery : Bool) : Type 0 where
  pub known : check_broker j.head broker ≡ ok tt
  pub fit : Fits e
  pub room : j.head.offset + length (entry_frame j e) ≤ max_journal
  pub placed : (checkpoint && is_misplaced j.head (chain_frames 0 0 es) broker e.0 recovery) ≡ false

module _ (j : AnchoredJournal) (es : List Entry) (logs : Logs j es) where
  module _ (broker : Str) (kind : Kind) (payload : List ℕ) (checkpoint recovery : Bool)
      (accepted : Accepted j es broker (kind, payload) checkpoint recovery) where
    abbrev entry : Entry
    entry = (kind, payload)

    abbrev last : Frame
    last = frame_of j.head.sequence j.head.checksum entry

    frames_now : chain_frames 0 0 (es ++ (entry ∷ [])) ≡ chain_frames 0 0 es ++ (last ∷ [])
    frames_now =
        chain_frames-append 0 0 es entry ∙ rw (zero-add (length es), logs.counted, logs.summed) refl

    checksum_now : (grown_head j broker checkpoint entry).checksum ≡ last.checksum
    checksum_now =
        checksum_of_frame kind (j.head.sequence + 1) j.head.checksum payload
          (omega (arith, logs.counted, few j es logs))
          (rw logs.summed (chain_end_below 0 0 es (omega arith)))
          (let (_, fits) = accepted.fit in fits)

    length-frame : length (entry_frame j entry) ≡ 40 + length payload
    length-frame = length-encoded_bytes kind (j.head.sequence + 1) j.head.checksum payload

    consistent_now : is_inconsistent (grown_head j broker checkpoint entry) ≡ false
    unfolding is_inconsistent check_broker
    consistent_now = ground (arith, logs.consistent, accepted.known, accepted.room, length-frame)

    kind_of_last : checkpoint ≡ true → is_other_kind clean_checkpoint (some last) ≡ false
    unfolding is_misplaced
    kind_of_last clean_now = ground (arith, accepted.placed, clean_now)

    -- The checkpoint that the head refers to is there still, or is the new frame.
    anchored_now :
        is_unanchored (grown_head j broker checkpoint entry) (chain_frames 0 0 es ++ (last ∷ []))
        ≡ false
    unfolding is_unanchored
    anchored_now = elim (Bool-cases checkpoint) [
      | inl clean_now ↦ rw clean_now (ground (arith, clean_now, kind_of_last, last_found))
      | inr dirty_now ↦
          elim (Option-cases (frame_at (j.head.clean_sequence - 1) (chain_frames 0 0 es))) [
            | inl gone ↦ rw dirty_now (ground (arith, gone, logs.anchored))
            | inr (f, there) ↦ rw dirty_now (
                ground (
                  arith,
                  there,
                  logs.anchored,
                  frame_at-append (j.head.clean_sequence - 1) (chain_frames 0 0 es) (last ∷ []) f
                      there,
                ))
          ]
    ]
      where
        place : j.head.sequence + 1 - 1 ≡ length es
        place = omega (arith, logs.counted)

        last_found :
            frame_at (j.head.sequence + 1 - 1) (chain_frames 0 0 es ++ (last ∷ [])) ≡ some last
        last_found =
            rw (place, sym (length-chain_frames 0 0 es))
              (frame_at-length (chain_frames 0 0 es) last)

    ended_now :
        is_unclean (grown_head j broker checkpoint entry) (chain_frames 0 0 es ++ (last ∷ []))
        ≡ false
    unfolding is_unclean
    ended_now = elim (Bool-cases checkpoint) [
      | inl clean_now ↦
          rw (clean_now, last_frame-append (chain_frames 0 0 es) last)
            (ground (arith, kind_of_last clean_now))
      | inr dirty_now ↦ rw dirty_now refl
    ]

    pub grown-Logs : Logs (grown j broker checkpoint entry) (es ++ (entry ∷ []))
    grown-Logs = record {
      live = logs.live;
      bytes = bytes_now;
      kept = refl;
      counted = ground (arith, logs.counted, length-append es (entry ∷ []));
      sized =
          rw (sym bytes_now)
            (ground (arith, logs.sized, logs.bytes, length-append j.journal (entry_frame j entry)));
      summed =
          checksum_now
          ∙ sym (
              chain_end-append 0 0 es entry
              ∙ rw (zero-add (length es), logs.counted, logs.summed) refl);
      fitting = All-snoc Fits es entry logs.fitting accepted.fit;
      bounded = accepted.room;
      consistent = consistent_now;
      anchored = rw frames_now anchored_now;
      ended = rw frames_now ended_now;
    }
      where
        bytes_now : j.journal ++ entry_frame j entry ≡ chain_bytes 0 0 (es ++ (entry ∷ []))
        bytes_now = rw logs.bytes (
            sym (
              chain_bytes-append 0 0 es entry
              ∙ rw (zero-add (length es), logs.counted, logs.summed) refl))
