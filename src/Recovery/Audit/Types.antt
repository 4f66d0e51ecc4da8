-- ===== src/Recovery/Audit/Types.antt =====
-- Identities and events of crates/uf-daemon/src/ddr_recovery_audit.rs, with the process births of
-- ddr_process_identity.rs. An `i32` is kept as its bit pattern.
use uflow.Prelude.{ℕ, Option, Bool, true, false, ◌&&◌, ◌==◌, bytes_beq}
use uflow.Prelude.Text.{Str}

pub record ProcessBirth : Type 0 where
  pub pid : ℕ
  pub uid : ℕ
  pub gid : ℕ
  pub pid_namespace_dev : ℕ
  pub pid_namespace_ino : ℕ
  pub starttime_ticks : ℕ

pub record Domain : Type 0 where
  pub host : Str
  pub boot : Str
  pub domain : Str
  pub cap_revision : ℕ
  pub broker : Str
  pub owner_limit : ℕ
  pub total_limit : ℕ

pub data Purpose : Type 0 where
  immutable staging probe_only : Purpose

pub record BackingIdentity : Type 0 where
  pub owner : ProcessBirth
  pub owner_incarnation : Str
  pub pool_generation : ℕ
  pub object_id : ℕ
  pub resource_generation : ℕ
  pub placement_id : ℕ
  pub binding_id : ℕ
  pub binding_generation : ℕ
  pub owner_lease_id : ℕ
  pub reservation_id : ℕ
  pub bytes : ℕ
  pub memfd_dev : ℕ
  pub memfd_ino : ℕ
  pub memfd_seals : ℕ
  pub purpose : Purpose

pub record ViewIdentity : Type 0 where
  pub object_id : ℕ
  pub resource_generation : ℕ
  pub accessor : ProcessBirth
  pub accessor_incarnation : Str
  pub client_id : ℕ
  pub view_id : ℕ
  pub lease_id : ℕ
  pub handoff_id : ℕ
  pub parent_view_id : Option ℕ
  pub offset : ℕ
  pub bytes : ℕ

pub record WorkIdentity : Type 0 where
  pub work_id : ℕ
  pub source_id : ℕ
  pub source_generation : ℕ
  pub target_id : ℕ
  pub target_generation : ℕ
  pub src_offset : ℕ
  pub dst_offset : ℕ
  pub bytes : ℕ
  pub snapshot_version : Str
  pub evidence_version : Str
  pub cost_version : Str
  pub worker_id : Str
  pub purpose : Purpose

pub record DrainSnapshot : Type 0 where
  pub handlers : ℕ
  pub pending_handoffs : ℕ
  pub retained_backings : ℕ
  pub active_views : ℕ
  pub reservations : ℕ
  pub in_flight : ℕ
  pub potential_holders : ℕ

pub data EventKind : Type 0 where
  broker_birth : ProcessBirth → EventKind
  register_intent : BackingIdentity → EventKind
  register_commit register_abort revoke backing_close_intent backing_close_done :
      (object_id resource_generation : ℕ) → EventKind
  view_intent : ViewIdentity → EventKind
  view_commit view_abort view_commit_unconfirmed view_not_sent view_peer_terminated :
      (view_id lease_id : ℕ) → EventKind
  view_close_intent view_close_done : (view_id lease_id : ℕ) → EventKind
  work_intent : WorkIdentity → EventKind
  cancel_request work_drained : (work_id : ℕ) → EventKind
  work_io_completed : (work_id copied : ℕ) → EventKind
  work_verified : (work_id copied verified : ℕ) → EventKind
  publish_intent : (work_id : ℕ) → EventKind
  publish_done : (work_id seals : ℕ) → EventKind
  publish_abort : (work_id : ℕ) → EventKind
  peer_terminated : ProcessBirth → EventKind
  broker_drained clean_checkpoint : DrainSnapshot → EventKind

pub record Event : Type 0 where
  pub domain : Domain
  pub epoch : ℕ
  pub kind : EventKind

-- The derived `==` of the records.
unfoldable pub same_birth : ProcessBirth → ProcessBirth → Bool
same_birth a b =
    a.pid == b.pid
    && (a.uid == b.uid
        && (a.gid == b.gid
            && (a.pid_namespace_dev == b.pid_namespace_dev
                && (a.pid_namespace_ino == b.pid_namespace_ino
                    && a.starttime_ticks == b.starttime_ticks))))

unfoldable pub same_domain : Domain → Domain → Bool
same_domain a b =
    bytes_beq a.host b.host
    && (bytes_beq a.boot b.boot
        && (bytes_beq a.domain b.domain
            && (a.cap_revision == b.cap_revision
                && (bytes_beq a.broker b.broker
                    && (a.owner_limit == b.owner_limit && a.total_limit == b.total_limit)))))

unfoldable pub same_snapshot : DrainSnapshot → DrainSnapshot → Bool
same_snapshot a b =
    a.handlers == b.handlers
    && (a.pending_handoffs == b.pending_handoffs
        && (a.retained_backings == b.retained_backings
            && (a.active_views == b.active_views
                && (a.reservations == b.reservations
                    && (a.in_flight == b.in_flight
                        && a.potential_holders == b.potential_holders)))))

abbrev pub same_purpose : Purpose → Purpose → Bool
same_purpose immutable immutable = true
same_purpose staging staging = true
same_purpose probe_only probe_only = true
same_purpose _ _ = false
