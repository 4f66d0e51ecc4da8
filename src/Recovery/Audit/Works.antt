-- ===== src/Recovery/Audit/Works.antt =====
-- The events on copies and their publication of crates/uf-daemon/src/ddr_recovery_audit.rs, an arm of
-- `apply` to a definition.
use Prim.Native.Nat.{bit_and}
use uflow.Prelude.{
  ℕ, is_some, Bool, true, false, ◌&&◌, ◌||◌, not, Option, none, some, Result, ok, ◌>>=◌, ◌>>◌,
  fail_if, ok_or, ◌==◌, nat_key,
}
use uflow.Prelude.Text.{Str, text}
use uflow.Prelude.Maps.{get, insert, any_value}
use uflow.Recovery.Audit.Types.{WorkIdentity, staging, probe_only, same_purpose}
use uflow.Recovery.Audit.State.{
  AuditReplay, Backing, BackingState, Work, same_state, valid_name, backing, contains, range,
}
use uflow.Recovery.Audit.Backings.{put_backing}

unfoldable pub is_invalid_work : WorkIdentity → Bool
is_invalid_work i =
    not (valid_name i.worker_id)
    || not (valid_name i.snapshot_version)
    || not (valid_name i.evidence_version)
    || not (valid_name i.cost_version)
    || not (same_purpose i.purpose staging || same_purpose i.purpose probe_only)
    || i.source_id == i.target_id

-- One of the owners has terminated.
abbrev pub is_orphaned : AuditReplay → Backing → Backing → Bool
is_orphaned s source target =
    contains source.identity.owner s.terminated || contains target.identity.owner s.terminated

-- `self.works.insert(work_id, work)`
abbrev pub put_work : AuditReplay → ℕ → Work → AuditReplay
put_work s id w = record s { works = insert id w s.works }

unfoldable pub work_intent : AuditReplay → WorkIdentity → Result Str AuditReplay
work_intent s i = do
  fail_if (i.work_id == 0 || is_some (get i.work_id s.works) || is_invalid_work i)
      (text "invalid work identity")
  source ← backing s i.source_id i.source_generation
  target ← backing s i.target_id i.target_generation
  fail_if
      (not (same_state source.state BackingState.active)
        || not (same_state target.state BackingState.pending)
        || not (same_purpose target.identity.purpose i.purpose)
        || is_orphaned s source target
        || (source.identity.memfd_dev == target.identity.memfd_dev
            && source.identity.memfd_ino == target.identity.memfd_ino)
        || not (range i.src_offset i.bytes source.identity.bytes)
        || not (range i.dst_offset i.bytes target.identity.bytes)
        || any_value (λ w. w.identity.target_id == i.target_id) s.works)
      (text "invalid source, target, range or exclusive writer")
  ok (
      put_work s i.work_id (record {
        identity = i;
        cancelled = false;
        drained = false;
        verified = false;
        io_completed = false;
      }))

unfoldable pub cancel_request : AuditReplay → ℕ → Result Str AuditReplay
cancel_request s work_id = do
  w ← ok_or (get work_id s.works) (text "unknown work")
  ok (put_work s work_id (record w { cancelled = true }))

unfoldable pub work_drained : AuditReplay → ℕ → Result Str AuditReplay
work_drained s work_id = do
  w ← ok_or (get work_id s.works) (text "unknown work")
  fail_if w.drained (text "duplicate work drain")
  ok (put_work s work_id (record w { drained = true }))

unfoldable pub work_io_completed : AuditReplay → ℕ → ℕ → Result Str AuditReplay
work_io_completed s work_id copied = do
  w ← ok_or (get work_id s.works) (text "unknown work")
  source ← backing s w.identity.source_id w.identity.source_generation
  target ← backing s w.identity.target_id w.identity.target_generation
  fail_if
      (not w.drained
        || w.cancelled
        || w.io_completed
        || not (copied == w.identity.bytes)
        || not (same_state source.state BackingState.active)
        || not (same_state target.state BackingState.pending)
        || is_orphaned s source target)
      (text "work is not eligible for I/O completion")
  ok (put_work s work_id (record w { io_completed = true }))

unfoldable pub work_verified : AuditReplay → ℕ → ℕ → ℕ → Result Str AuditReplay
work_verified s work_id copied verified = do
  w ← ok_or (get work_id s.works) (text "unknown work")
  source ← backing s w.identity.source_id w.identity.source_generation
  target ← backing s w.identity.target_id w.identity.target_generation
  fail_if
      (not w.drained
        || w.cancelled
        || w.verified
        || not (copied == w.identity.bytes)
        || not (verified == w.identity.bytes)
        || not (same_state source.state BackingState.active)
        || not (same_state target.state BackingState.pending)
        || is_orphaned s source target)
      (text "work is not eligible for verified completion")
  ok (put_work s work_id (record w { verified = true }))

-- The work has not ended well, or is not for publication.
abbrev pub cannot_publish : Work → Bool
cannot_publish w =
    not w.drained
    || not (w.verified || w.io_completed)
    || w.cancelled
    || not (same_purpose w.identity.purpose staging)

unfoldable pub publish_intent : AuditReplay → ℕ → Result Str AuditReplay
publish_intent s work_id = do
  w ← ok_or (get work_id s.works) (text "unknown work")
  fail_if (cannot_publish w) (text "work cannot publish")
  source ← backing s w.identity.source_id w.identity.source_generation
  target ← backing s w.identity.target_id w.identity.target_generation
  fail_if
      (not (same_state source.state BackingState.active)
        || not (same_state target.state BackingState.pending)
        || is_orphaned s source target)
      (text "publication identities became stale")
  ok (
      put_backing s w.identity.target_id
        (record target { state = BackingState.publishing; publishing_work = some work_id }))

-- `target.publishing_work == Some(work_id)`
abbrev pub is_publishing_for : ℕ → Option ℕ → Bool
is_publishing_for work_id none = false
is_publishing_for work_id (some w) = w == work_id

-- `required` are the bits of the four seals.
unfoldable pub publish_done : ℕ → AuditReplay → ℕ → ℕ → Result Str AuditReplay
publish_done required s work_id seals = do
  w ← ok_or (get work_id s.works) (text "unknown work")
  fail_if (cannot_publish w) (text "work cannot finish publication")
  fail_if (not (bit_and seals required == required)) (text "published target is not fully sealed")
  source ← backing s w.identity.source_id w.identity.source_generation
  target ← backing s w.identity.target_id w.identity.target_generation
  fail_if
      (not (same_state source.state BackingState.active)
        || not (same_state target.state BackingState.publishing)
        || not (is_publishing_for work_id target.publishing_work)
        || is_orphaned s source target)
      (text "publication identities became stale")
  ok (
      put_backing s w.identity.target_id
        (record target { state = BackingState.active; publishing_work = none }))

unfoldable pub publish_abort : AuditReplay → ℕ → Result Str AuditReplay
publish_abort s work_id = do
  w ← ok_or (get work_id s.works) (text "unknown work")
  target ← backing s w.identity.target_id w.identity.target_generation
  fail_if
      (not (same_state target.state BackingState.publishing)
        || not (is_publishing_for work_id target.publishing_work))
      (text "publication intent missing or belongs to another work")
  ok (
      put_backing s w.identity.target_id
        (record target { state = BackingState.pending; publishing_work = none }))
