-- ===== src/Recovery/Durable/Agrees.antt =====
-- The replay and the journal of `DurableAudit` in crates/uf-daemon/src/ddr_recovery_durable.rs agree.
use uflow.Prelude.{
  ℕ, ◌≡◌, refl, ap, bytes_beq, ◌∙◌, List, [], ◌∷◌, ◌++◌, true, false, Result, ok, Result-cases, inl,
  inr, arith,
}
use uflow.Prelude.Text.{Str}
use uflow.Recovery.Audit.Types.{Event}
use uflow.Recovery.Audit.State.{AuditReplay, observed_drain}
use uflow.Recovery.Audit.Apply.{apply, apply_kind, replay}
use uflow.Recovery.Audit.Checkpoint.{Idle, clean_checkpoint-Idle}
use uflow.Recovery.Audit
use uflow.Recovery.Journal.Frame.{IoError, Kind, clean_checkpoint}
use uflow.Recovery.Journal.Head.{Head}
use uflow.Recovery.Journal.Append.{append_dirty, append_clean_after_drain, is_dedicated}
use uflow.Recovery.Journal.Store.{AnchoredJournal}
use uflow.Recovery.Journal.Chain.{Entry}
use uflow.Recovery.Journal.Ledger.{Logs}
use uflow.Recovery.Journal.Grown.{Accepted, grown, grown_head}
use uflow.Recovery.Journal.Appends.{append_dirty-Logs, append_clean_after_drain-Logs}
use uflow.Recovery.Durable.{
  DurableAudit, is_joined, publish, append_encoded, record_live, record_transition, recording,
  forget_head, head_result, append_checkpoint, checkpoint_event, checkpoint_after_drain,
}

-- The entries are the records of the events, one by one.
abbrev pub Records : (Event → Result Str Entry) → List Event → List Entry → Type 0
Records encode [] [] = Unit
Records encode (e ∷ es) (entry ∷ entries) = (encode e ≡ ok entry) × Records encode es entries
Records encode _ _ = ⊥

Records-append :
    (encode : Event → Result Str Entry) (es : List Event) (e : Event) (entries : List Entry)
    (entry : Entry)
    → Records encode es entries
    → encode e ≡ ok entry
    → Records encode (es ++ (e ∷ [])) (entries ++ (entry ∷ []))
Records-append encode [] e [] entry before now = (now, tt)
Records-append encode [] e (x ∷ xs) entry before now = absurd before
Records-append encode (y ∷ ys) e [] entry before now = absurd before
Records-append encode (y ∷ ys) e (x ∷ xs) entry (first, before) now =
    (first, Records-append encode ys e xs entry before now)

replay-append :
    (seals : ℕ) (s t u : AuditReplay) (es : List Event) (e : Event)
    → replay seals s es ≡ ok t
    → apply seals t e ≡ ok u
    → replay seals s (es ++ (e ∷ [])) ≡ ok u
unfolding replay
replay-append seals s t u [] e before now = ground (arith, before, now)
replay-append seals s t u (x ∷ es) e before now = elim (Result-cases (apply seals s x)) [
  | inr (y, bad) ↦ absurd (ground (arith, before, bad))
  | inl (v, there) ↦ rw there (replay-append seals v t u es e (ground (arith, before, there)) now)
]

-- The journal holds the records of the events, and the replay has taken the events from its start.
pub record Agrees (seals : ℕ) (encode : Event → Result Str Entry) (d : DurableAudit)
    (start : AuditReplay) (events : List Event) (entries : List Entry) : Type 0 where
  pub usable : d.poisoned ≡ false
  pub held : Logs d.journal entries
  pub encoded : Records encode events entries
  pub replayed : replay seals start events ≡ ok d.replay

abbrev pub after_record : DurableAudit → AuditReplay → Entry → DurableAudit
after_record d candidate entry = record d {
  journal = grown d.journal d.broker false entry;
  replay = candidate;
}

module _ (seals : ℕ) (encode : Event → Result Str Entry) (d : DurableAudit) (event : Event) where
  transition_live :
      d.poisoned ≡ false
      → record_transition seals encode (ok tt) (ok tt) event d
        ≡ record_live seals encode (ok tt) (ok tt) event d
  unfolding record_transition
  transition_live usable = ground (arith, usable)

  append_done :
      (candidate : AuditReplay) (kind : Kind) (payload : List ℕ) {head : Head}
      {journal : AnchoredJournal}
      → append_dirty (ok tt) (ok tt) d.broker kind payload d.journal ≡ (ok head, journal)
      → append_encoded seals encode (ok tt) (ok tt) d candidate (kind, payload)
        ≡ (ok tt, record d { journal = journal; replay = candidate })
  unfolding append_encoded publish
  append_done candidate kind payload appended =
      ap
        (λ (p : Result IoError Head × AnchoredJournal).
          let (r, j) = p in publish d candidate (forget_head r) j)
        appended

  live_done :
      (candidate : AuditReplay) (entry : Entry)
      → apply seals d.replay event ≡ ok candidate
      → encode event ≡ ok entry
      → record_live seals encode (ok tt) (ok tt) event d
        ≡ append_encoded seals encode (ok tt) (ok tt) d candidate entry
  unfolding record_live
  live_done candidate entry applied written = rw (record_live, applied, written) refl

  recording_open :
      is_joined event.kind ≡ false
      → recording seals encode (ok tt) (ok tt) event d
        ≡ record_transition seals encode (ok tt) (ok tt) event d
  unfolding recording
  recording_open direct = rw direct refl

-- Where the journal, whose files are in place, holds the records of some events, the replay has taken these events
-- and the audit is not poisoned, an event is recorded that is no drain or checkpoint, that the replay accepts, and
-- whose record the journal accepts and is not of a kind for a checkpoint or a recovery: the journal then holds its
-- record as well, and the replay has taken it too.
pub recording-Agrees :
    (seals : ℕ) (encode : Event → Result Str Entry) (d : DurableAudit)
    (start candidate : AuditReplay) (events : List Event) (entries : List Entry) (event : Event)
    (kind : Kind) (payload : List ℕ)
    → Agrees seals encode d start events entries
    → is_joined event.kind ≡ false
    → apply seals d.replay event ≡ ok candidate
    → encode event ≡ ok (kind, payload)
    → is_dedicated kind ≡ false
    → Accepted d.journal entries d.broker (kind, payload) false false
    → (recording seals encode (ok tt) (ok tt) event d
        ≡ (ok tt, after_record d candidate (kind, payload)))
      × Agrees seals encode
          (after_record d candidate (kind, payload))
          start
          (events ++ (event ∷ []))
          (entries ++ ((kind, payload) ∷ []))
recording-Agrees seals encode d start candidate events entries event kind payload agrees direct
      applied written open_kind accepted =
    let (appended, logs, _) =
      append_dirty-Logs d.journal entries d.broker kind payload agrees.held open_kind accepted in
    (
      recording_open seals encode d event direct
          ∙ transition_live seals encode d event agrees.usable
          ∙ live_done seals encode d event candidate (kind, payload) applied written
          ∙ append_done seals encode d event candidate kind payload appended,
      record {
        usable = agrees.usable;
        held = logs;
        encoded = Records-append encode events event entries (kind, payload) agrees.encoded written;
        replayed =
            replay-append seals start d.replay candidate events event agrees.replayed applied;
      },
    )

abbrev pub after_checkpoint : DurableAudit → AuditReplay → List ℕ → DurableAudit
after_checkpoint d candidate payload = record d {
  journal = grown d.journal d.broker true (clean_checkpoint, payload);
  replay = candidate;
}

module _ (seals : ℕ) (encode : Event → Result Str Entry) (d : DurableAudit)
    (candidate : AuditReplay) (payload : List ℕ) where
  checkpoint_appended :
      {head : Head} {journal : AnchoredJournal}
      → append_clean_after_drain (ok tt) (ok tt) d.broker payload d.journal ≡ (ok head, journal)
      → append_checkpoint seals encode (ok tt) (ok tt) d candidate (clean_checkpoint, payload)
        ≡ (ok head, record d { journal = journal; replay = candidate })
  unfolding append_checkpoint
  checkpoint_appended appended =
      ap
        (λ (p : Result IoError Head × AnchoredJournal).
          let (r, j) = p in head_result d candidate r j)
        appended

  checkpoint_done :
      (broker : Str)
      → d.poisoned ≡ false
      → bytes_beq broker d.broker ≡ true
      → apply seals d.replay (checkpoint_event d) ≡ ok candidate
      → encode (checkpoint_event d) ≡ ok (clean_checkpoint, payload)
      → checkpoint_after_drain seals encode (ok tt) (ok tt) broker d
        ≡ append_checkpoint seals encode (ok tt) (ok tt) d candidate (clean_checkpoint, payload)
  unfolding checkpoint_after_drain
  checkpoint_done broker usable same applied written =
      ground (arith, usable, same, applied, written)

  checkpoint-Idle : apply seals d.replay (checkpoint_event d) ≡ ok candidate → Idle d.replay
  unfolding apply apply_kind
  checkpoint-Idle applied =
      elim (Result-cases (Audit.Apply.clean_checkpoint d.replay (observed_drain d.replay 0 0))) [
        | inr (e, bad) ↦ absurd (ground (arith, applied, bad))
        | inl (t, there) ↦ clean_checkpoint-Idle d.replay t (observed_drain d.replay 0 0) there
      ]

-- Where the journal, whose files are in place, holds the records of some events, the replay has taken these events
-- and the audit is not poisoned, a checkpoint for a drain of the audit's own broker is taken, if the replay accepts
-- it, it is encoded as a clean checkpoint, and the journal accepts this: the journal then holds its record as well,
-- the replay has taken it too, and before it nothing was held.
pub checkpoint_after_drain-Agrees :
    (seals : ℕ) (encode : Event → Result Str Entry) (d : DurableAudit)
    (start candidate : AuditReplay) (events : List Event) (entries : List Entry) (broker : Str)
    (payload : List ℕ)
    → Agrees seals encode d start events entries
    → bytes_beq broker d.broker ≡ true
    → apply seals d.replay (checkpoint_event d) ≡ ok candidate
    → encode (checkpoint_event d) ≡ ok (clean_checkpoint, payload)
    → Accepted d.journal entries d.broker (clean_checkpoint, payload) true false
    → (checkpoint_after_drain seals encode (ok tt) (ok tt) broker d ≡ (
      ok (grown_head d.journal d.broker true (clean_checkpoint, payload)),
      after_checkpoint d candidate payload,
    ))
      × Agrees seals encode
          (after_checkpoint d candidate payload)
          start
          (events ++ (checkpoint_event d ∷ []))
          (entries ++ ((clean_checkpoint, payload) ∷ []))
      × Idle d.replay
checkpoint_after_drain-Agrees seals encode d start candidate events entries broker payload agrees
      same applied written accepted =
    let (appended, logs) =
      append_clean_after_drain-Logs d.journal entries d.broker payload agrees.held accepted in
    (
      checkpoint_done seals encode d candidate payload broker agrees.usable same applied written
          ∙ checkpoint_appended seals encode d candidate payload appended,
      record {
        usable = agrees.usable;
        held = logs;
        encoded =
            Records-append encode events (checkpoint_event d) entries (clean_checkpoint, payload)
              agrees.encoded written;
        replayed =
            replay-append seals start d.replay candidate events (checkpoint_event d) agrees.replayed
              applied;
      },
      checkpoint-Idle seals encode d candidate payload applied,
    )
