-- ===== src/Recovery/Audit/Moves.antt =====
-- The life cycles that crates/uf-daemon/src/ddr_recovery_audit.rs records, as a specification: what a step may
-- change, without the tests that an event passes.
use uflow.Prelude.{
  ℕ, ◌≤◌, ◌+◌, ◌≡◌, ◌⊎◌, Bool, true, false, none, some, [], ◌∷◌, ◌++◌, nat_key, if◌then◌else◌,
}
use uflow.Prelude.Maps.{get, any_value}
use uflow.Recovery.Audit.Types.{
  ProcessBirth, BackingIdentity, ViewIdentity, WorkIdentity, DrainSnapshot,
}
use uflow.Recovery.Audit.State.{
  AuditReplay, Backing, BackingState, View, ViewState, Work, is_closed, contains, range,
  charged_bytes, owner_charged, observed_drain,
}
use uflow.Recovery.Audit.Backings.{put_backing, is_open_view_of, is_running_on}
use uflow.Recovery.Audit.Views.{put_view}
use uflow.Recovery.Audit.Works.{put_work}

-- The life cycle of a backing.
abbrev pub may_become : BackingState → BackingState → Bool
may_become BackingState.provisional BackingState.active = true
may_become BackingState.provisional BackingState.pending = true
may_become BackingState.provisional BackingState.retired = true
may_become BackingState.active BackingState.retired = true
may_become BackingState.pending BackingState.retired = true
may_become BackingState.pending BackingState.publishing = true
may_become BackingState.publishing BackingState.active = true
may_become BackingState.publishing BackingState.pending = true
may_become BackingState.retired BackingState.closing = true
may_become BackingState.closing BackingState.closed = true
may_become _ _ = false

-- The life cycle of a view: one that may be exposed stays so.
abbrev pub may_turn : ViewState → ViewState → Bool
may_turn ViewState.intent ViewState.active = true
may_turn ViewState.intent ViewState.possibly_exposed = true
may_turn ViewState.intent ViewState.not_sent = true
may_turn ViewState.active ViewState.possibly_exposed = true
may_turn ViewState.active ViewState.closing = true
may_turn ViewState.closing ViewState.closed = true
may_turn _ _ = false

abbrev pub new_backing : BackingIdentity → Backing
new_backing i = record { identity = i; state = BackingState.provisional; publishing_work = none }

abbrev pub new_view : ViewIdentity → View
new_view i = record { identity = i; state = ViewState.intent }

abbrev pub new_work : WorkIdentity → Work
new_work i = record {
  identity = i;
  cancelled = false;
  drained = false;
  verified = false;
  io_completed = false;
}

-- The generation of the object is there, and is active.
pub record Live (s : AuditReplay) (object_id generation : ℕ) (state : BackingState) (b : Backing)
    : Type 0 where
  pub found : get object_id s.backings ≡ some b
  pub current : b.identity.resource_generation ≡ generation
  pub in_state : b.state ≡ state

pub data Move (s t : AuditReplay) : Type 0 where
  broker_known : (birth : ProcessBirth) → t ≡ record s { broker_birth = some birth } → Move s t
  backing_added :
      (i : BackingIdentity)
      → get i.object_id s.backings ≡ none
      → charged_bytes s + i.bytes ≤ s.domain.total_limit
      → owner_charged s i.owner_incarnation + i.bytes ≤ s.domain.owner_limit
      → t ≡ put_backing s i.object_id (new_backing i)
      → Move s t
  backing_moved :
      (id : ℕ) (old new : Backing)
      → get id s.backings ≡ some old
      → new.identity ≡ old.identity
      → may_become old.state new.state ≡ true
      → is_closed new.state ≡ false
      → t ≡ put_backing s id new
      → Move s t
  backing_closed :
      (id : ℕ) (old : Backing)
      → get id s.backings ≡ some old
      → old.state ≡ BackingState.closing
      → any_value (is_open_view_of id) s.views ≡ false
      → any_value (is_running_on id) s.works ≡ false
      → t ≡ put_backing s id (record old { state = BackingState.closed })
      → Move s t
  view_added :
      (i : ViewIdentity) (b : Backing)
      → get i.view_id s.views ≡ none
      → Live s i.object_id i.resource_generation BackingState.active b
      → range i.offset i.bytes b.identity.bytes ≡ true
      → t ≡ put_view s i.view_id (new_view i)
      → Move s t
  view_moved :
      (id : ℕ) (old new : View)
      → get id s.views ≡ some old
      → new.identity ≡ old.identity
      → may_turn old.state new.state ≡ true
      → t ≡ put_view s id new
      → Move s t
  work_added :
      (i : WorkIdentity) (source target : Backing)
      → get i.work_id s.works ≡ none
      → Live s i.source_id i.source_generation BackingState.active source
      → Live s i.target_id i.target_generation BackingState.pending target
      → range i.src_offset i.bytes source.identity.bytes ≡ true
      → range i.dst_offset i.bytes target.identity.bytes ≡ true
      → t ≡ put_work s i.work_id (new_work i)
      → Move s t
  work_moved :
      (id : ℕ) (old new : Work)
      → get id s.works ≡ some old
      → new.identity ≡ old.identity
      → (old.drained ≡ false) ⊎ (new.drained ≡ true)
      → t ≡ put_work s id new
      → Move s t
  peer_seen :
      (birth : ProcessBirth)
      → t ≡ record s {
        terminated =
            if contains birth s.terminated then s.terminated else s.terminated ++ (birth ∷ []);
      }
      → Move s t
  drain_seen :
      (snapshot : DrainSnapshot)
      → t ≡ record s { drained = true; drained_snapshot = some snapshot }
      → Move s t
  checkpoint_taken :
      s.drained ≡ true
      → observed_drain s 0 0 ≡ record {
        handlers = 0;
        pending_handoffs = 0;
        retained_backings = 0;
        active_views = 0;
        reservations = 0;
        in_flight = 0;
        potential_holders = 0;
      }
      → t ≡ record s { checkpointed = true }
      → Move s t
