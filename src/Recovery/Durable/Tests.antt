-- ===== src/Recovery/Durable/Tests.antt =====
-- A run of `DurableAudit` of crates/uf-daemon/src/ddr_recovery_durable.rs.
use uflow.Prelude.{
  ℕ, ◌+◌, ◌≡◌, refl, List, [], ◌∷◌, true, false, none, some, Result, ok, arith, bytes_beq, nat_key,
}
use uflow.Prelude.Text.{Str, text, is_empty}
use uflow.Bridge.Wire.{to_be_bytes}
use uflow.Recovery.Audit.Types.{ProcessBirth, Domain, Event, EventKind, same_domain, same_snapshot}
use uflow.Recovery.Audit.State.{
  AuditReplay, valid_birth, valid_name, all_bytes, observed_drain, unresolved_holders, add_all,
  add_accessors, add_owners, total, active_work,
}
use uflow.Recovery.Audit.Apply.{
  apply, apply_kind, replay, broker_birth, broker_drained, clean_checkpoint,
}
use uflow.Recovery.Audit.Demands.{no_obligations}
use uflow.Recovery.Audit.Checkpoint.{Idle}
use uflow.Recovery.Journal.Frame.{Kind, checked_bytes, encoded_bytes}
use uflow.Recovery.Journal.Head.{genesis, encode_head, is_inconsistent, same_head}
use uflow.Recovery.Journal.Store.{is_unanchored, is_unclean, frame_at, last_frame}
use uflow.Recovery.Journal.Append.{check_broker, is_misplaced}
use uflow.Recovery.Journal.Chain.{chain_bytes, chain_frames, chain_end}
use uflow.Recovery.Journal.Grown.{Accepted, grown, grown_head, grown-Logs}
use uflow.Recovery.Durable.{DurableAudit, recording, checkpoint_event, checkpoint_after_drain}
use uflow.Recovery.Durable.Agrees.{
  Agrees, after_record, recording-Agrees, after_checkpoint, checkpoint_after_drain-Agrees,
}

abbrev domain_one : Domain
domain_one = record {
  host = text "h";
  boot = text "b";
  domain = text "d";
  cap_revision = 1;
  broker = text "k";
  owner_limit = 100;
  total_limit = 200;
}

abbrev birth_one : ProcessBirth
birth_one = record {
  pid = 7;
  uid = 1000;
  gid = 1000;
  pid_namespace_dev = 4;
  pid_namespace_ino = 5;
  starttime_ticks = 6;
}

abbrev born : Event
born = record { domain = domain_one; epoch = 0; kind = EventKind.broker_birth birth_one }

abbrev bare_replay : AuditReplay
bare_replay = record {
  domain = domain_one;
  epoch = 0;
  broker_birth = none;
  backings = [];
  views = [];
  works = [];
  terminated = [];
  drained = false;
  drained_snapshot = none;
  checkpointed = false;
}

-- A codec that writes an event as its epoch.
abbrev kind_of : EventKind → Kind
kind_of (EventKind.broker_drained snapshot) = Kind.broker_drained
kind_of (EventKind.clean_checkpoint snapshot) = Kind.clean_checkpoint
kind_of _ = Kind.broker_birth

abbrev plain_codec : Event → Result Str (Kind × List ℕ)
plain_codec e = ok (kind_of e.kind, (e.epoch + 1) ∷ [])

abbrev bare_audit : DurableAudit
bare_audit = record {
  domain = domain_one;
  broker = text "k";
  journal = record { journal = []; state = encode_head genesis; head = genesis; poisoned = false };
  replay = bare_replay;
  poisoned = false;
}

abbrev known_broker : AuditReplay
known_broker = record bare_replay { broker_birth = some birth_one }

bare_held : Agrees 15 plain_codec bare_audit bare_replay [] []
unfolding replay chain_bytes chain_frames chain_end is_inconsistent valid_name all_bytes is_empty
    text same_head bytes_beq is_unanchored is_unclean frame_at last_frame
bare_held = record {
  usable = refl;
  held = record {
    live = refl;
    bytes = refl;
    kept = refl;
    counted = refl;
    sized = refl;
    summed = refl;
    fitting = tt;
    bounded = omega arith;
    consistent = refl;
    anchored = refl;
    ended = refl;
  };
  encoded = tt;
  replayed = refl;
}

born_fits : Accepted bare_audit.journal [] (text "k") (Kind.broker_birth, 1 ∷ []) false false
unfolding check_broker valid_name all_bytes is_empty text bytes_beq encoded_bytes checked_bytes
    to_be_bytes
born_fits = record {
  known = refl;
  fit = (omega arith, omega arith);
  room = omega arith;
  placed = refl;
}

recording-Agrees_example :
    (recording 15 plain_codec (ok tt) (ok tt) born bare_audit
      ≡ (ok tt, after_record bare_audit known_broker (Kind.broker_birth, 1 ∷ [])))
    × Agrees 15 plain_codec
        (after_record bare_audit known_broker (Kind.broker_birth, 1 ∷ []))
        bare_replay
        (born ∷ [])
        ((Kind.broker_birth, 1 ∷ []) ∷ [])
unfolding apply apply_kind broker_birth same_domain bytes_beq valid_birth text
recording-Agrees_example =
    recording-Agrees 15 plain_codec bare_audit bare_replay known_broker [] [] born Kind.broker_birth
      (1 ∷ []) bare_held refl refl refl refl born_fits

abbrev drained_replay : AuditReplay
drained_replay = record bare_replay { drained = true; drained_snapshot = some no_obligations }

abbrev stopped : Event
stopped = record { domain = domain_one; epoch = 0; kind = EventKind.broker_drained no_obligations }

abbrev drained_audit : DurableAudit
drained_audit = record bare_audit {
  journal = grown bare_audit.journal (text "k") false (Kind.broker_drained, 1 ∷ []);
  replay = drained_replay;
}

abbrev finished_replay : AuditReplay
finished_replay = record drained_replay { checkpointed = true }

stop_fits : Accepted bare_audit.journal [] (text "k") (Kind.broker_drained, 1 ∷ []) false false
unfolding check_broker valid_name all_bytes is_empty text bytes_beq encoded_bytes checked_bytes
    to_be_bytes
stop_fits = record {
  known = refl;
  fit = (omega arith, omega arith);
  room = omega arith;
  placed = refl;
}

drained_held :
    Agrees 15 plain_codec drained_audit bare_replay
      (stopped ∷ [])
      ((Kind.broker_drained, 1 ∷ []) ∷ [])
unfolding replay apply apply_kind broker_drained same_domain bytes_beq text same_snapshot
    observed_drain unresolved_holders add_all add_accessors add_owners total active_work
drained_held = record {
  usable = refl;
  held =
      grown-Logs bare_audit.journal [] bare_held.held (text "k") Kind.broker_drained (1 ∷ []) false
        false stop_fits;
  encoded = (refl, tt);
  replayed = refl;
}

finish_fits :
    Accepted drained_audit.journal
      ((Kind.broker_drained, 1 ∷ []) ∷ [])
      (text "k")
      (Kind.clean_checkpoint, 1 ∷ [])
      true
      false
unfolding check_broker valid_name all_bytes is_empty text bytes_beq encoded_bytes checked_bytes
    to_be_bytes is_misplaced chain_frames last_frame
finish_fits = record {
  known = refl;
  fit = (omega arith, omega arith);
  room = omega arith;
  placed = refl;
}

checkpoint_after_drain-Agrees_example :
    (checkpoint_after_drain 15 plain_codec (ok tt) (ok tt) (text "k") drained_audit ≡ (
      ok (grown_head drained_audit.journal (text "k") true (Kind.clean_checkpoint, 1 ∷ [])),
      after_checkpoint drained_audit finished_replay (1 ∷ []),
    ))
    × Agrees 15 plain_codec
        (after_checkpoint drained_audit finished_replay (1 ∷ []))
        bare_replay
        (stopped ∷ checkpoint_event drained_audit ∷ [])
        ((Kind.broker_drained, 1 ∷ []) ∷ (Kind.clean_checkpoint, 1 ∷ []) ∷ [])
    × Idle drained_replay
unfolding replay apply apply_kind clean_checkpoint same_domain bytes_beq text same_snapshot
    observed_drain unresolved_holders add_all add_accessors add_owners total active_work
checkpoint_after_drain-Agrees_example =
    checkpoint_after_drain-Agrees 15 plain_codec drained_audit bare_replay finished_replay
      (stopped ∷ []) ((Kind.broker_drained, 1 ∷ []) ∷ []) (text "k") (1 ∷ []) drained_held refl refl
      refl finish_fits
