-- ===== src/Recovery/Journal/Faults.antt =====
-- Appends to the journal of crates/uf-daemon/src/ddr_recovery_journal.rs that fail between their writes.
use uflow.Prelude.{
  ℕ, ◌+◌, ◌≤◌, ◌<◌, ◌≡◌, ◌⊎◌, refl, sym, ap, ◌∙◌, List, [], ◌∷◌, ◌++◌, Bool, true, false, Result,
  ok, err, fail_if, arith, ◌==◌, length, take, length-append, length-take, Result-cases, inl, inr,
}
use uflow.Prelude.Text.{Str, text, valid_utf8}
use uflow.Recovery.Journal.Frame.{IoError, invalid_data, permission_denied, Kind, header_len}
use uflow.Recovery.Journal.Layout.{length-encoded_bytes}
use uflow.Recovery.Journal.Chain.{Entry}
use uflow.Recovery.Journal.Head.{Head, encode_head, parse_head, next_line}
use uflow.Recovery.Journal.Store.{
  AnchoredJournal, ◌>>◌, lift, verify, read_head, opening, WriteStage, before_journal_write,
  after_partial_journal_write, before_journal_sync, after_journal_sync, after_head_truncate,
  before_head_sync, after_head_sync,
}
use uflow.Recovery.Journal.Append.{write_all, append_inner, check_broker}
use uflow.Recovery.Journal.Ops.{bind_ok, bind_err, then_ok, then_err, poisoning_ok, poisoning_err}
use uflow.Recovery.Journal.Ledger.{Logs, verify-Logs, head_read, opening-Logs}
use uflow.Recovery.Journal.Grown.{Accepted, entry_frame, grown_head, grown, grown-Logs}
use uflow.Recovery.Journal.Appends.{write_end, both_written, encoded, offset_found, counted_on}

abbrev pub same_stage : WriteStage → WriteStage → Bool
same_stage before_journal_write before_journal_write = true
same_stage after_partial_journal_write after_partial_journal_write = true
same_stage before_journal_sync before_journal_sync = true
same_stage after_journal_sync after_journal_sync = true
same_stage after_head_truncate after_head_truncate = true
same_stage before_head_sync before_head_sync = true
same_stage after_head_sync after_head_sync = true
same_stage _ _ = false

-- A hook that fails at one stage.
abbrev pub fault_at : WriteStage → IoError → WriteStage → Result IoError (Unit {0})
fault_at at_stage e stage = fail_if (same_stage stage at_stage) e

-- What the files hold when an append has failed at a stage.
abbrev pub wreck : WriteStage → AnchoredJournal → List ℕ → Head → AnchoredJournal
wreck before_journal_write j frame next = j
wreck after_partial_journal_write j frame next = record j {
  journal = j.journal ++ take header_len frame;
}
wreck before_journal_sync j frame next = record j { journal = j.journal ++ frame }
wreck after_journal_sync j frame next = record j { journal = j.journal ++ frame }
wreck after_head_truncate j frame next = record j { journal = j.journal ++ frame; state = [] }
wreck before_head_sync j frame next = record j {
  journal = j.journal ++ frame;
  state = encode_head next;
}
wreck after_head_sync j frame next = record j {
  journal = j.journal ++ frame;
  state = encode_head next;
}

module _ (j : AnchoredJournal) (offset : ℕ) (frame : List ℕ) (next : Head)
    (here : offset ≡ length j.journal) (long : header_len ≤ length frame) where
  broken_write :
      (stage : WriteStage) (e : IoError)
      → write_all (fault_at stage e) offset frame next j ≡ (err e, wreck stage j frame next)
  unfolding write_all ◌>>◌
  broken_write before_journal_write e = refl
  broken_write after_partial_journal_write e =
      rw (◌>>◌, write_end offset j.journal (take header_len frame) here) refl
  broken_write before_journal_sync e = rw (both_written offset j.journal frame here long) refl
  broken_write after_journal_sync e = rw (both_written offset j.journal frame here long) refl
  broken_write after_head_truncate e = rw (both_written offset j.journal frame here long) refl
  broken_write before_head_sync e = rw (both_written offset j.journal frame here long) refl
  broken_write after_head_sync e = rw (both_written offset j.journal frame here long) refl

-- What is found when the files are opened again: the journal as before, the journal with the entry, or an error.
abbrev pub Reopens : AnchoredJournal → AnchoredJournal → AnchoredJournal → Type 0
Reopens before with_entry k =
    (opening (ok tt) k.journal k.state ≡ ok before)
    ⊎ ((opening (ok tt) k.journal k.state ≡ ok with_entry)
        ⊎ ((e : IoError) × (opening (ok tt) k.journal k.state ≡ err e)))

read_nothing : read_head [] ≡ err (invalid_data (text "invalid recovery head version"))
unfolding read_head valid_utf8 parse_head next_line
read_nothing = refl

module _ (j : AnchoredJournal) (es : List Entry) (logs : Logs j es) where
  -- A file that is longer than the head says is refused.
  opening-longer :
      (extra : List ℕ)
      → 0 < length extra
      → opening (ok tt) (j.journal ++ extra) j.state
        ≡ err (invalid_data (text "journal length does not match durable head"))
  unfolding opening
  opening-longer extra filled = rw (opening, head_read j es logs, longer) refl
    where
      longer : (length (j.journal ++ extra) == j.head.offset) ≡ false
      longer = ground (arith, length-append j.journal extra, logs.sized, logs.bytes, filled)

  opening-headless :
      (bytes : List ℕ)
      → opening (ok tt) bytes [] ≡ err (invalid_data (text "invalid recovery head version"))
  unfolding opening
  opening-headless bytes = rw (opening, read_nothing) refl

  module _ (broker : Str) (kind : Kind) (payload : List ℕ) (checkpoint recovery : Bool)
      (accepted : Accepted j es broker (kind, payload) checkpoint recovery) where
    abbrev frame : List ℕ
    frame = entry_frame j (kind, payload)

    abbrev next : Head
    next = grown_head j broker checkpoint (kind, payload)

    length-frame : length frame ≡ 40 + length payload
    length-frame = length-encoded_bytes kind (j.head.sequence + 1) j.head.checksum payload

    wreck-Reopens :
        (stage : WriteStage)
        → Reopens j (grown j broker checkpoint (kind, payload)) (wreck stage j frame next)
    wreck-Reopens before_journal_write = inl (opening-Logs j es logs)
    wreck-Reopens after_partial_journal_write = inr (
        inr (
          _,
          opening-longer (take header_len frame)
              (omega (arith, length-take header_len frame, length-frame)),
        ))
    wreck-Reopens before_journal_sync =
        inr (inr (_, opening-longer frame (omega (arith, length-frame))))
    wreck-Reopens after_journal_sync =
        inr (inr (_, opening-longer frame (omega (arith, length-frame))))
    wreck-Reopens after_head_truncate = inr (inr (_, opening-headless (j.journal ++ frame)))
    wreck-Reopens before_head_sync = inr (
        inl (
          opening-Logs (grown j broker checkpoint (kind, payload)) (es ++ ((kind, payload) ∷ []))
            (grown-Logs j es logs broker kind payload checkpoint recovery accepted)))
    wreck-Reopens after_head_sync = inr (
        inl (
          opening-Logs (grown j broker checkpoint (kind, payload)) (es ++ ((kind, payload) ∷ []))
            (grown-Logs j es logs broker kind payload checkpoint recovery accepted)))

    append_inner-broken :
        (stage : WriteStage) (e : IoError) (after : Result IoError (Unit {0}))
        → append_inner (ok tt) after broker kind payload checkpoint recovery (fault_at stage e) j
          ≡ (err e, record (wreck stage j frame next) { poisoned = true })
    unfolding append_inner
    append_inner-broken stage e after =
        bind_ok _ j _ refl
        ∙ then_ok _ j _ (rw accepted.known refl)
        ∙ bind_ok _ j _ (verify-Logs j es logs)
        ∙ then_ok _ j _ (rw accepted.placed refl)
        ∙ bind_ok _ j _
            (rw (counted_on j es logs broker kind payload checkpoint recovery accepted) refl)
        ∙ bind_ok _ j _
            (rw (encoded j es logs broker kind payload checkpoint recovery accepted) refl)
        ∙ bind_ok _ j _ (
            poisoning_ok (lift _) j
              (rw (offset_found j es logs broker kind payload checkpoint recovery accepted) refl))
        ∙ then_err _ j _ (
            poisoning_err (write_all (fault_at stage e) j.head.offset frame next) j (
              broken_write j j.head.offset frame next (logs.sized ∙ ap length (sym logs.bytes))
                (rw length-frame (omega arith)) stage e))

-- Where an append that is accepted fails between two of its writes, it returns the fault and poisons the
-- journal, and its files open as the journal before it, as the journal with the entry, or not at all.
pub append_inner-fault :
    (j : AnchoredJournal) (es : List Entry) (broker : Str) (kind : Kind) (payload : List ℕ)
    (checkpoint recovery : Bool) (stage : WriteStage) (e : IoError)
    (after : Result IoError (Unit {0}))
    → Logs j es
    → Accepted j es broker (kind, payload) checkpoint recovery
    → (k : AnchoredJournal) × (append_inner
          (ok tt)
          after
          broker
          kind
          payload
          checkpoint
          recovery
          (fault_at stage e)
          j
        ≡ (err e, k))
      × (k.poisoned ≡ true)
      × Reopens j (grown j broker checkpoint (kind, payload)) k
append_inner-fault j es broker kind payload checkpoint recovery stage e after logs accepted = (
  record (wreck stage j (entry_frame j (kind, payload))
      (grown_head j broker checkpoint (kind, payload))) { poisoned = true },
  append_inner-broken j es logs broker kind payload checkpoint recovery accepted stage e after,
  refl,
  wreck-Reopens j es logs broker kind payload checkpoint recovery accepted stage,
)

poisoned_verify :
    (pins : Result IoError (Unit {0})) (j : AnchoredJournal)
    → j.poisoned ≡ true
    → verify pins j ≡ (err (permission_denied (text "recovery journal poisoned")), j)
unfolding verify
poisoned_verify pins j dead = ground (arith, dead)

-- A poisoned journal refuses to be verified, and refuses every append without a change to its files or its head.
pub append_inner-poisoned :
    (j : AnchoredJournal) (before after : Result IoError (Unit {0})) (broker : Str) (kind : Kind)
    (payload : List ℕ) (checkpoint recovery : Bool) (hook : WriteStage → Result IoError (Unit {0}))
    → j.poisoned ≡ true
    → (verify before j ≡ (err (permission_denied (text "recovery journal poisoned")), j))
      × ((e : IoError) × (append_inner before after broker kind payload checkpoint recovery hook j
            ≡ (err e, j)))
unfolding append_inner
append_inner-poisoned j before after broker kind payload checkpoint recovery hook dead = (
  poisoned_verify before j dead,
  elim (Result-cases (check_broker j.head broker)) [
    | inr (e, bad) ↦ (e, bind_ok _ j _ refl ∙ then_err _ j _ (rw bad refl))
    | inl (done, known) ↦ (
      permission_denied (text "recovery journal poisoned"),
      bind_ok _ j _ refl
          ∙ then_ok _ j _ (rw known refl)
          ∙ bind_err _ j _ (poisoned_verify before j dead),
    )
  ],
)
