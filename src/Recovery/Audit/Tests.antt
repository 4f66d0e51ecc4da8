-- ===== src/Recovery/Audit/Tests.antt =====
-- Runs of the replay of crates/uf-daemon/src/ddr_recovery_audit.rs on small histories.
use uflow.Prelude.{
  ◌≡◌, ◌≤◌, refl, true, false, none, some, List, [], ◌∷◌, ◌++◌, ◌↔◌, ◌⊎◌, not, length, Result, ok,
  err, arith, nat_key, bytes_beq,
}
use uflow.Prelude.Text.{Str, text, is_empty}
use uflow.Prelude.Maps.{get, insert, any_value}
use uflow.Recovery.Audit.Types.{
  ProcessBirth, Domain, immutable, BackingIdentity, ViewIdentity, Event, EventKind, same_birth,
  same_domain, same_snapshot,
}
use uflow.Recovery.Audit.State.{
  AuditReplay, View, ViewState, charge, charge_of, is_closed, is_resolved, new, valid_name,
  all_bytes, valid_birth, range, backing, view_mut, contains, total, charged_bytes, owner_charged,
  add_holder, add_owners, add_accessors, add_all, unresolved_holders, active_work, observed_drain,
}
use uflow.Recovery.Audit.Backings.{
  is_incomplete, is_reused_by, is_contradicted_by, register_intent, register_commit, revoke,
  backing_close_intent, backing_close_done,
}
use uflow.Recovery.Audit.Views.{
  is_incomplete_view, is_shared_with, is_denied_by, check_parent, view_intent, view_commit,
  view_abort, view_close_intent, view_close_done,
}
use uflow.Recovery.Audit.Apply.{
  peer_terminated, broker_drained, clean_checkpoint, is_checkpoint, apply_kind, apply, replay,
}
use uflow.Recovery.Audit.Moves.{Move}
use uflow.Recovery.Audit.Refines.{apply-Move}
use uflow.Recovery.Audit.Demands.{no_obligations}
use uflow.Recovery.Audit.Guards.{Allowed}
use uflow.Recovery.Audit.Budget.{replay-InBudget}
use uflow.Recovery.Audit.Integrity.{Linked}
use uflow.Recovery.Audit.Links.{replay-Linked}
use uflow.Recovery.Audit.Holders.{unresolved_holders-none}
use uflow.Recovery.Audit.Checkpoint.{Idle, event_now, after_drain, replay-completes}
use uflow.Recovery.Audit.Exposure.{replay-Exposed}
use uflow.Recovery.Audit.Finality.{replay-Gone, replay-Settled}

abbrev domain_one : Domain
domain_one = record {
  host = text "h";
  boot = text "b";
  domain = text "d";
  cap_revision = 1;
  broker = text "k";
  owner_limit = 100;
  total_limit = 200;
}

abbrev owner_one : ProcessBirth
owner_one = record {
  pid = 7;
  uid = 1000;
  gid = 1000;
  pid_namespace_dev = 4;
  pid_namespace_ino = 5;
  starttime_ticks = 6;
}

abbrev peer_one : ProcessBirth
peer_one = record owner_one { pid = 8 }

abbrev backing_one : BackingIdentity
backing_one = record {
  owner = owner_one;
  owner_incarnation = text "o";
  pool_generation = 1;
  object_id = 11;
  resource_generation = 2;
  placement_id = 3;
  binding_id = 4;
  binding_generation = 1;
  owner_lease_id = 5;
  reservation_id = 6;
  bytes = 64;
  memfd_dev = 1;
  memfd_ino = 9;
  memfd_seals = 0;
  purpose = immutable;
}

abbrev view_one : ViewIdentity
view_one = record {
  object_id = 11;
  resource_generation = 2;
  accessor = peer_one;
  accessor_incarnation = text "p";
  client_id = 21;
  view_id = 31;
  lease_id = 41;
  handoff_id = 51;
  parent_view_id = none;
  offset = 16;
  bytes = 32;
}

abbrev event_one : EventKind → Event
event_one kind = record { domain = domain_one; epoch = 0; kind = kind }

-- A backing is registered and a view of it handed out.
abbrev opened : List Event
opened =
    event_one (EventKind.register_intent backing_one)
    ∷ event_one (EventKind.register_commit 11 2)
    ∷ event_one (EventKind.view_intent view_one)
    ∷ event_one (EventKind.view_commit 31 41)
    ∷ []

-- The view and the backing are closed.
abbrev shut : List Event
shut =
    event_one (EventKind.revoke 11 2)
    ∷ event_one (EventKind.view_close_intent 31 41)
    ∷ event_one (EventKind.view_close_done 31 41)
    ∷ event_one (EventKind.backing_close_intent 11 2)
    ∷ event_one (EventKind.backing_close_done 11 2)
    ∷ []

abbrev checkpointing : List Event
checkpointing =
    event_one (EventKind.broker_drained no_obligations)
    ∷ event_one (EventKind.clean_checkpoint no_obligations)
    ∷ []

abbrev start : AuditReplay
start = record {
  domain = domain_one;
  epoch = 0;
  broker_birth = none;
  backings = [];
  views = [];
  works = [];
  terminated = [];
  drained = false;
  drained_snapshot = none;
  checkpointed = false;
}

abbrev reached : Result Str AuditReplay → AuditReplay
reached (Result.err e) = start
reached (ok s) = s

unfoldable after : AuditReplay → List Event → AuditReplay
after s es = reached (replay 15 s es)

begin_run : new domain_one ≡ ok start
unfolding new valid_name all_bytes is_empty text
begin_run = refl

open_run : replay 15 start opened ≡ ok (after start opened)
unfolding after replay apply apply_kind same_domain bytes_beq register_intent is_incomplete
    valid_birth valid_name all_bytes contains get insert any_value is_reused_by is_contradicted_by
    charged_bytes owner_charged total register_commit backing view_intent is_incomplete_view
    is_shared_with is_denied_by range view_commit text is_empty check_parent
open_run = refl

abbrev all_shut : AuditReplay
all_shut = after start (opened ++ shut)

shut_run : replay 15 start (opened ++ shut) ≡ ok all_shut
unfolding after replay apply apply_kind same_domain bytes_beq register_intent is_incomplete
    valid_birth valid_name all_bytes contains get insert any_value is_reused_by is_contradicted_by
    charged_bytes owner_charged total register_commit backing view_intent is_incomplete_view
    is_shared_with is_denied_by range view_commit text is_empty check_parent same_birth
    same_snapshot view_mut revoke view_abort view_close_intent view_close_done backing_close_intent
    backing_close_done peer_terminated broker_drained clean_checkpoint observed_drain
    unresolved_holders add_holder add_owners add_accessors add_all active_work
shut_run = refl

whole_run :
    replay 15 start (opened ++ shut ++ checkpointing)
    ≡ ok (after start (opened ++ shut ++ checkpointing))
unfolding after replay apply apply_kind same_domain bytes_beq register_intent is_incomplete
    valid_birth valid_name all_bytes contains get insert any_value is_reused_by is_contradicted_by
    charged_bytes owner_charged total register_commit backing view_intent is_incomplete_view
    is_shared_with is_denied_by range view_commit text is_empty check_parent same_birth
    same_snapshot view_mut revoke view_abort view_close_intent view_close_done backing_close_intent
    backing_close_done peer_terminated broker_drained clean_checkpoint observed_drain
    unresolved_holders add_holder add_owners add_accessors add_all active_work
whole_run = refl

-- The view of which the delivery failed.
abbrev exposed_view : View
exposed_view = record { identity = view_one; state = ViewState.possibly_exposed }

abbrev leaked : List Event
leaked =
    event_one (EventKind.register_intent backing_one)
    ∷ event_one (EventKind.register_commit 11 2)
    ∷ event_one (EventKind.view_intent view_one)
    ∷ event_one (EventKind.view_abort 31 41)
    ∷ []

abbrev retiring : List Event
retiring =
    event_one (EventKind.revoke 11 2)
    ∷ event_one (EventKind.backing_close_intent 11 2)
    ∷ event_one (
        EventKind.broker_drained
          (record no_obligations { retained_backings = 1; potential_holders = 2 }))
    ∷ []

abbrev ended : List Event
ended = event_one (EventKind.peer_terminated peer_one) ∷ []

shut_Idle : Idle all_shut
unfolding after replay apply apply_kind same_domain bytes_beq register_intent is_incomplete
    valid_birth valid_name all_bytes contains get insert any_value is_reused_by is_contradicted_by
    charged_bytes owner_charged total register_commit backing view_intent is_incomplete_view
    is_shared_with is_denied_by range view_commit text is_empty check_parent same_birth
    same_snapshot view_mut revoke view_abort view_close_intent view_close_done backing_close_intent
    backing_close_done peer_terminated broker_drained clean_checkpoint observed_drain
    unresolved_holders add_holder add_owners add_accessors add_all active_work
shut_Idle = record { backings = refl; views = refl; works = refl; peers = refl }

apply-Move_example :
    (u : AuditReplay) × Move (after start opened) u
    × (after (after start opened) (event_one (EventKind.revoke 11 2) ∷ []) ≡ record u { epoch = 0 })
    × ((after start opened).epoch ≤ 0)
    × ((after start opened).checkpointed ≡ false)
    × (same_domain domain_one (after start opened).domain ≡ true)
    × ((after start opened).drained ≡ false ⊎ is_checkpoint (EventKind.revoke 11 2) ≡ true)
    × Allowed 15 0 (after start opened) u (EventKind.revoke 11 2)
unfolding after replay apply apply_kind same_domain bytes_beq register_intent is_incomplete
    valid_birth valid_name all_bytes contains get insert any_value is_reused_by is_contradicted_by
    charged_bytes owner_charged total register_commit backing view_intent is_incomplete_view
    is_shared_with is_denied_by range view_commit text is_empty check_parent same_birth
    same_snapshot view_mut revoke view_abort view_close_intent view_close_done backing_close_intent
    backing_close_done peer_terminated broker_drained clean_checkpoint observed_drain
    unresolved_holders add_holder add_owners add_accessors add_all active_work
apply-Move_example =
    apply-Move 15 (after start opened)
      (after (after start opened) (event_one (EventKind.revoke 11 2) ∷ []))
      (event_one (EventKind.revoke 11 2)) refl

replay-InBudget_example :
    (total charge (after start opened).backings ≤ 200)
    × ((owner : Str) → total (charge_of owner) (after start opened).backings ≤ 100)
    × (charged_bytes (after start opened) ≡ total charge (after start opened).backings)
    × ((owner : Str)
        → owner_charged (after start opened) owner
          ≡ total (charge_of owner) (after start opened).backings)
replay-InBudget_example =
    replay-InBudget 15 domain_one start (after start opened) opened (omega arith) begin_run open_run

replay-Linked_example : Linked (after start opened)
replay-Linked_example =
    replay-Linked 15 domain_one start (after start opened) opened begin_run open_run

unresolved_holders-none_example : (length (unresolved_holders all_shut) ≡ 0) ↔ (
    (any_value (λ b. not (is_closed b.state)) all_shut.backings ≡ false)
    × (any_value (λ v. not (is_resolved v.state)) all_shut.views ≡ false)
    × (all_shut.terminated ≡ []))
unresolved_holders-none_example = unresolved_holders-none all_shut

replay-completes_example :
    replay 15 all_shut (
      event_now all_shut (EventKind.broker_drained no_obligations)
      ∷ event_now all_shut (EventKind.clean_checkpoint no_obligations)
      ∷ [])
    ≡ ok (record (after_drain all_shut) { checkpointed = true })
unfolding after replay apply apply_kind same_domain bytes_beq register_intent is_incomplete
    valid_birth valid_name all_bytes contains get insert any_value is_reused_by is_contradicted_by
    charged_bytes owner_charged total register_commit backing view_intent is_incomplete_view
    is_shared_with is_denied_by range view_commit text is_empty check_parent same_birth
    same_snapshot view_mut revoke view_abort view_close_intent view_close_done backing_close_intent
    backing_close_done peer_terminated broker_drained clean_checkpoint observed_drain
    unresolved_holders add_holder add_owners add_accessors add_all active_work
replay-completes_example = replay-completes 15 all_shut shut_Idle refl refl

replay-Exposed_example :
    (get 31 (after (after start leaked) retiring).views ≡ some exposed_view)
    × ((after (after start leaked) retiring).checkpointed ≡ false)
unfolding after replay apply apply_kind same_domain bytes_beq register_intent is_incomplete
    valid_birth valid_name all_bytes contains get insert any_value is_reused_by is_contradicted_by
    charged_bytes owner_charged total register_commit backing view_intent is_incomplete_view
    is_shared_with is_denied_by range view_commit text is_empty check_parent same_birth
    same_snapshot view_mut revoke view_abort view_close_intent view_close_done backing_close_intent
    backing_close_done peer_terminated broker_drained clean_checkpoint observed_drain
    unresolved_holders add_holder add_owners add_accessors add_all active_work
replay-Exposed_example =
    replay-Exposed 15 31 exposed_view (after start leaked) (after (after start leaked) retiring)
      retiring refl refl refl refl

replay-Gone_example :
    (contains peer_one (after (after start (opened ++ ended)) shut).terminated ≡ true)
    × ((after (after start (opened ++ ended)) shut).checkpointed ≡ false)
unfolding after replay apply apply_kind same_domain bytes_beq register_intent is_incomplete
    valid_birth valid_name all_bytes contains get insert any_value is_reused_by is_contradicted_by
    charged_bytes owner_charged total register_commit backing view_intent is_incomplete_view
    is_shared_with is_denied_by range view_commit text is_empty check_parent same_birth
    same_snapshot view_mut revoke view_abort view_close_intent view_close_done backing_close_intent
    backing_close_done peer_terminated broker_drained clean_checkpoint observed_drain
    unresolved_holders add_holder add_owners add_accessors add_all active_work
replay-Gone_example =
    replay-Gone 15 peer_one (after start (opened ++ ended))
      (after (after start (opened ++ ended)) shut) shut refl refl refl

replay-Settled_example :
    Idle (after start (opened ++ shut ++ checkpointing))
    × ((e : Event)
        → apply 15 (after start (opened ++ shut ++ checkpointing)) e
          ≡ err (text "audit domain or epoch mismatch"))
unfolding after replay apply apply_kind same_domain bytes_beq register_intent is_incomplete
    valid_birth valid_name all_bytes contains get insert any_value is_reused_by is_contradicted_by
    charged_bytes owner_charged total register_commit backing view_intent is_incomplete_view
    is_shared_with is_denied_by range view_commit text is_empty check_parent same_birth
    same_snapshot view_mut revoke view_abort view_close_intent view_close_done backing_close_intent
    backing_close_done peer_terminated broker_drained clean_checkpoint observed_drain
    unresolved_holders add_holder add_owners add_accessors add_all active_work
replay-Settled_example =
    replay-Settled 15 domain_one start (after start (opened ++ shut ++ checkpointing))
      (opened ++ shut ++ checkpointing) begin_run whole_run refl
