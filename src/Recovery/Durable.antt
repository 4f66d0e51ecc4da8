-- ===== src/Recovery/Durable.antt =====
-- The recording of events by `DurableAudit` of crates/uf-daemon/src/ddr_recovery_durable.rs: the replay and the
-- journal together. The codec between events and records is a parameter.
use uflow.Prelude.{
  ℕ, ◌≡◌, refl, ◌∙◌, List, [], ◌∷◌, ◌++◌, Bool, true, false, ◌||◌, not, Result, ok, err, ◌>>=◌,
  Result-cases, inl, inr, arith, if◌then◌else◌, bytes_beq,
}
use uflow.Prelude.Text.{Str, text}
use uflow.Recovery.Audit.Types.{Domain, Event, EventKind, DrainSnapshot}
use uflow.Recovery.Audit.State.{AuditReplay, observed_drain}
use uflow.Recovery.Audit.Apply.{apply, replay}
use uflow.Recovery.Journal.Frame.{
  IoError, invalid_data, permission_denied, Kind, clean_checkpoint, same_kind,
}
use uflow.Recovery.Journal.Head.{Head}
use uflow.Recovery.Journal.Store.{AnchoredJournal}
use uflow.Recovery.Journal.Append.{append_dirty, append_clean_after_drain}
use uflow.Recovery.Journal.Chain.{Entry}
use uflow.Recovery.Journal.Ledger.{Logs}
use uflow.Recovery.Journal.Grown.{Accepted, grown}
use uflow.Recovery.Journal.Appends.{append_dirty-Logs}
mod Agrees
mod Tests

pub record DurableAudit : Type 0 where
  pub domain : Domain
  pub broker : Str
  pub journal : AnchoredJournal
  pub replay : AuditReplay
  pub poisoned : Bool

-- `matches!(kind, CleanCheckpoint(_) | BrokerDrained(_))`
abbrev pub is_joined : EventKind → Bool
is_joined (EventKind.clean_checkpoint snapshot) = true
is_joined (EventKind.broker_drained snapshot) = true
is_joined _ = false

abbrev pub poison : DurableAudit → DurableAudit
poison d = record d { poisoned = true }

-- The end of `record_transition`, with the replay that is to be published.
unfoldable pub publish :
    DurableAudit
    → AuditReplay
    → Result IoError (Unit {0})
    → AnchoredJournal
    → Result IoError (Unit {0}) × DurableAudit
publish d candidate (err e) journal = (err e, record d { journal = journal; poisoned = true })
publish d candidate (ok done) journal = (ok tt, record d { journal = journal; replay = candidate })

abbrev pub forget_head : Result IoError Head → Result IoError (Unit {0})
forget_head (err e) = err e
forget_head (ok head) = ok tt

-- The end of `checkpoint_after_drain`, likewise.
abbrev pub head_result :
    DurableAudit
    → AuditReplay
    → Result IoError Head
    → AnchoredJournal
    → Result IoError Head × DurableAudit
head_result d candidate (err e) journal = (err e, record d { journal = journal; poisoned = true })
head_result d candidate (ok head) journal =
    (ok head, record d { journal = journal; replay = candidate })

abbrev pub checkpoint_event : DurableAudit → Event
checkpoint_event d = record {
  domain = d.domain;
  epoch = d.replay.epoch;
  kind = EventKind.clean_checkpoint (observed_drain d.replay 0 0);
}

-- `seals` is that of `apply`, `encode` the codec, and `before` and `after` are what the system answers on the files
-- of the journal.
module _ (seals : ℕ) (encode : Event → Result Str (Kind × List ℕ))
    (before after : Result IoError (Unit {0})) where
  unfoldable pub append_encoded :
      DurableAudit → AuditReplay → Kind × List ℕ → Result IoError (Unit {0}) × DurableAudit
  append_encoded d candidate (kind, payload) =
      let (result, journal) = append_dirty before after d.broker kind payload d.journal in
      publish d candidate (forget_head result) journal

  -- `record_transition` where nothing has failed before.
  unfoldable pub record_live : Event → DurableAudit → Result IoError (Unit {0}) × DurableAudit
  record_live event d = elim (apply seals d.replay event) [
    | err e ↦ (err (invalid_data e), poison d)
    | ok candidate ↦ elim (encode event) [
      | err e ↦ (err (invalid_data e), poison d)
      | ok entry ↦ append_encoded d candidate entry
    ]
  ]

  -- `record_transition`
  unfoldable pub record_transition : Event → DurableAudit → Result IoError (Unit {0}) × DurableAudit
  record_transition event d =
      if d.poisoned
      then (err (permission_denied (text "durable audit poisoned")), d)
      else record_live event d

  -- `record`
  unfoldable pub recording : Event → DurableAudit → Result IoError (Unit {0}) × DurableAudit
  recording event d =
      if is_joined event.kind
      then (err (invalid_data (text "drain and checkpoint require the joined path")), poison d)
      else record_transition event d

  -- `record_joined_drain`, with the broker of the drain.
  unfoldable pub record_joined_drain :
      Str → ℕ → DrainSnapshot → DurableAudit → Result IoError (Unit {0}) × DurableAudit
  record_joined_drain broker epoch snapshot d =
      if not (bytes_beq broker d.broker)
      then (err (invalid_data (text "joined drain belongs to another broker")), poison d)
      else record_transition
          (record { domain = d.domain; epoch = epoch; kind = EventKind.broker_drained snapshot }) d

  unfoldable pub append_checkpoint :
      DurableAudit → AuditReplay → Kind × List ℕ → Result IoError Head × DurableAudit
  append_checkpoint d candidate (kind, payload) =
      if not (same_kind kind clean_checkpoint)
      then (err (invalid_data (text "unexpected checkpoint kind")), d)
      else let (result, journal) =
          append_clean_after_drain before after d.broker payload d.journal in
        head_result d candidate result journal

  -- `checkpoint_after_drain`, with the broker of the drain.
  unfoldable pub checkpoint_after_drain : Str → DurableAudit → Result IoError Head × DurableAudit
  checkpoint_after_drain broker d =
      if d.poisoned
      then (err (permission_denied (text "durable audit poisoned")), d)
      else if not (bytes_beq broker d.broker)
      then (err (invalid_data (text "joined checkpoint belongs to another broker")), poison d)
      else elim (apply seals d.replay (checkpoint_event d)) [
        | err e ↦ (err (invalid_data e), d)
        | ok candidate ↦ elim (encode (checkpoint_event d)) [
          | err e ↦ (err (invalid_data e), d)
          | ok entry ↦ append_checkpoint d candidate entry
        ]
      ]
