-- ===== src/Recovery/Audit/Guards.antt =====
-- The events of crates/uf-daemon/src/ddr_recovery_audit.rs as a transition system: for every kind of event, what
-- it demands of the state, and the one state that it leads to.
use Prim.Native.Nat.{bit_and}
use uflow.Prelude.{
  ℕ, ◌≡◌, ◌≢◌, ◌⊎◌, true, false, none, some, ◌==◌, [], nat_key, ◌∷◌, ◌++◌, ◌+◌, ◌≤◌, if◌then◌else◌,
}
use uflow.Prelude.Maps.{get, any_value}
use uflow.Recovery.Audit.Types.{
  ProcessBirth, BackingIdentity, ViewIdentity, WorkIdentity, DrainSnapshot, EventKind, same_birth,
}
use uflow.Recovery.Audit.State.{
  AuditReplay, Backing, BackingState, View, ViewState, Work, valid_birth, contains, range,
  observed_drain, charged_bytes, owner_charged,
}
use uflow.Recovery.Audit.Backings.{
  is_incomplete, is_reused_by, is_contradicted_by, is_open_view_of, is_running_on, put_backing,
  committed_state,
}
use uflow.Recovery.Audit.Views.{is_incomplete_view, is_shared_with, is_denied_by, put_view}
use uflow.Recovery.Audit.Works.{is_invalid_work, put_work}
use uflow.Recovery.Audit.Moves.{Live, new_backing, new_view, new_work}
use uflow.Recovery.Audit.Demands.{Leased, Between, Copied, Publishable, HasParent, no_obligations}

-- An event of the kind takes the state `s`, in the epoch of the event, to `t`.
pub data Allowed (seals epoch : ℕ) (s t : AuditReplay) : EventKind → Type 0 where
  birth_first :
      (birth : ProcessBirth)
      → valid_birth birth ≡ true
      → s.broker_birth ≡ none
      → epoch ≡ 0
      → s.backings ≡ []
      → s.views ≡ []
      → s.works ≡ []
      → s.terminated ≡ []
      → t ≡ record s { broker_birth = some birth }
      → Allowed seals epoch s t (EventKind.broker_birth birth)
  backing_new :
      (i : BackingIdentity)
      → is_incomplete i ≡ false
      → get i.object_id s.backings ≡ none
      → contains i.owner s.terminated ≡ false
      → any_value (is_reused_by i) s.backings ≡ false
      → any_value (is_contradicted_by i) s.backings ≡ false
      → charged_bytes s + i.bytes ≤ s.domain.total_limit
      → owner_charged s i.owner_incarnation + i.bytes ≤ s.domain.owner_limit
      → t ≡ put_backing s i.object_id (new_backing i)
      → Allowed seals epoch s t (EventKind.register_intent i)
  backing_owned :
      (o g : ℕ) (b : Backing)
      → Live s o g BackingState.provisional b
      → contains b.identity.owner s.terminated ≡ false
      → t ≡ put_backing s o (record b { state = committed_state b.identity.purpose })
      → Allowed seals epoch s t (EventKind.register_commit o g)
  backing_unregistered :
      (o g : ℕ) (b : Backing)
      → Live s o g BackingState.provisional b
      → t ≡ put_backing s o (record b { state = BackingState.retired })
      → Allowed seals epoch s t (EventKind.register_abort o g)
  backing_registered :
      (o g : ℕ) (b : Backing)
      → Live s o g BackingState.active b ⊎ Live s o g BackingState.pending b
      → t ≡ put_backing s o (record b { state = BackingState.retired })
      → Allowed seals epoch s t (EventKind.revoke o g)
  backing_revoked :
      (o g : ℕ) (b : Backing)
      → Live s o g BackingState.retired b
      → t ≡ put_backing s o (record b { state = BackingState.closing })
      → Allowed seals epoch s t (EventKind.backing_close_intent o g)
  backing_unused :
      (o g : ℕ) (b : Backing)
      → Live s o g BackingState.closing b
      → any_value (is_open_view_of o) s.views ≡ false
      → any_value (is_running_on o) s.works ≡ false
      → t ≡ put_backing s o (record b { state = BackingState.closed })
      → Allowed seals epoch s t (EventKind.backing_close_done o g)
  view_new :
      (i : ViewIdentity) (b : Backing)
      → is_incomplete_view i ≡ false
      → get i.view_id s.views ≡ none
      → any_value (is_shared_with i) s.views ≡ false
      → any_value (λ b. b.identity.owner_lease_id == i.lease_id) s.backings ≡ false
      → any_value (is_denied_by i) s.views ≡ false
      → Live s i.object_id i.resource_generation BackingState.active b
      → contains b.identity.owner s.terminated ≡ false
      → contains i.accessor s.terminated ≡ false
      → range i.offset i.bytes b.identity.bytes ≡ true
      → HasParent s i i.parent_view_id
      → t ≡ put_view s i.view_id (new_view i)
      → Allowed seals epoch s t (EventKind.view_intent i)
  view_backed :
      (id lease : ℕ) (v : View) (b : Backing)
      → Leased s id lease ViewState.intent v
      → Live s v.identity.object_id v.identity.resource_generation BackingState.active b
      → contains b.identity.owner s.terminated ≡ false
      → contains v.identity.accessor s.terminated ≡ false
      → t ≡ put_view s id (record v { state = ViewState.active })
      → Allowed seals epoch s t (EventKind.view_commit id lease)
  view_unsettled :
      (id lease : ℕ) (v : View)
      → Leased s id lease ViewState.intent v
      → t ≡ put_view s id (record v { state = ViewState.possibly_exposed })
      → Allowed seals epoch s t (EventKind.view_abort id lease)
  view_committed :
      (id lease : ℕ) (v : View)
      → Leased s id lease ViewState.active v
      → t ≡ put_view s id (record v { state = ViewState.possibly_exposed })
      → Allowed seals epoch s t (EventKind.view_commit_unconfirmed id lease)
  view_unsent :
      (id lease : ℕ) (v : View)
      → Leased s id lease ViewState.intent v
      → t ≡ put_view s id (record v { state = ViewState.not_sent })
      → Allowed seals epoch s t (EventKind.view_not_sent id lease)
  view_orphaned :
      (id lease : ℕ) (v : View)
      → Leased s id lease ViewState.intent v ⊎ Leased s id lease ViewState.active v
      → contains v.identity.accessor s.terminated ≡ true
      → t ≡ put_view s id (record v { state = ViewState.possibly_exposed })
      → Allowed seals epoch s t (EventKind.view_peer_terminated id lease)
  view_open :
      (id lease : ℕ) (v : View)
      → Leased s id lease ViewState.active v
      → t ≡ put_view s id (record v { state = ViewState.closing })
      → Allowed seals epoch s t (EventKind.view_close_intent id lease)
  view_left :
      (id lease : ℕ) (v : View)
      → Leased s id lease ViewState.closing v
      → t ≡ put_view s id (record v { state = ViewState.closed })
      → Allowed seals epoch s t (EventKind.view_close_done id lease)
  work_new :
      (i : WorkIdentity) (source target : Backing)
      → is_invalid_work i ≡ false
      → i.work_id ≢ 0
      → get i.work_id s.works ≡ none
      → Between s i BackingState.pending source target
      → target.identity.purpose ≡ i.purpose
      → range i.src_offset i.bytes source.identity.bytes ≡ true
      → range i.dst_offset i.bytes target.identity.bytes ≡ true
      → (source.identity.memfd_dev ≢ target.identity.memfd_dev)
        ⊎ (source.identity.memfd_ino ≢ target.identity.memfd_ino)
      → any_value (λ w. w.identity.target_id == i.target_id) s.works ≡ false
      → t ≡ put_work s i.work_id (new_work i)
      → Allowed seals epoch s t (EventKind.work_intent i)
  work_known :
      (id : ℕ) (w : Work)
      → get id s.works ≡ some w
      → t ≡ put_work s id (record w { cancelled = true })
      → Allowed seals epoch s t (EventKind.cancel_request id)
  work_running :
      (id : ℕ) (w : Work)
      → get id s.works ≡ some w
      → w.drained ≡ false
      → t ≡ put_work s id (record w { drained = true })
      → Allowed seals epoch s t (EventKind.work_drained id)
  work_moved_all :
      (id copied : ℕ) (w : Work) (source target : Backing)
      → Copied s id copied w
      → w.io_completed ≡ false
      → Between s w.identity BackingState.pending source target
      → t ≡ put_work s id (record w { io_completed = true })
      → Allowed seals epoch s t (EventKind.work_io_completed id copied)
  work_compared_all :
      (id copied compared : ℕ) (w : Work) (source target : Backing)
      → Copied s id copied w
      → compared ≡ w.identity.bytes
      → w.verified ≡ false
      → Between s w.identity BackingState.pending source target
      → t ≡ put_work s id (record w { verified = true })
      → Allowed seals epoch s t (EventKind.work_verified id copied compared)
  publication_due :
      (id : ℕ) (w : Work) (source target : Backing)
      → Publishable s id w
      → Between s w.identity BackingState.pending source target
      → t
        ≡ put_backing s w.identity.target_id
            (record target { state = BackingState.publishing; publishing_work = some id })
      → Allowed seals epoch s t (EventKind.publish_intent id)
  publication_sealed :
      (id bits : ℕ) (w : Work) (source target : Backing)
      → Publishable s id w
      → bit_and bits seals ≡ seals
      → Between s w.identity BackingState.publishing source target
      → target.publishing_work ≡ some id
      → t
        ≡ put_backing s w.identity.target_id
            (record target { state = BackingState.active; publishing_work = none })
      → Allowed seals epoch s t (EventKind.publish_done id bits)
  publication_begun :
      (id : ℕ) (w : Work) (target : Backing)
      → get id s.works ≡ some w
      → Live s w.identity.target_id w.identity.target_generation BackingState.publishing target
      → target.publishing_work ≡ some id
      → t
        ≡ put_backing s w.identity.target_id
            (record target { state = BackingState.pending; publishing_work = none })
      → Allowed seals epoch s t (EventKind.publish_abort id)
  peer_known :
      (birth : ProcessBirth)
      → (any_value (λ b. same_birth b.identity.owner birth) s.backings ≡ true)
        ⊎ (any_value (λ v. same_birth v.identity.accessor birth) s.views ≡ true)
      → t ≡ record s {
        terminated =
            if contains birth s.terminated then s.terminated else s.terminated ++ (birth ∷ []);
      }
      → Allowed seals epoch s t (EventKind.peer_terminated birth)
  drain_observed :
      (snapshot : DrainSnapshot)
      → snapshot ≡ observed_drain s 0 snapshot.reservations
      → snapshot.pending_handoffs ≡ 0
      → snapshot.in_flight ≡ 0
      → t ≡ record s { drained = true; drained_snapshot = some snapshot }
      → Allowed seals epoch s t (EventKind.broker_drained snapshot)
  checkpoint_clean :
      (snapshot : DrainSnapshot)
      → s.drained ≡ true
      → s.drained_snapshot ≡ some snapshot
      → observed_drain s 0 0 ≡ snapshot
      → snapshot ≡ no_obligations
      → t ≡ record s { checkpointed = true }
      → Allowed seals epoch s t (EventKind.clean_checkpoint snapshot)
