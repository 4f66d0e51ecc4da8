-- ===== src/Recovery/Audit/Apply.antt =====
-- `AuditReplay::apply` of crates/uf-daemon/src/ddr_recovery_audit.rs, and the events on the broker.
use uflow.Prelude.{
  ℕ, is_some, nat_key, List, [], ◌∷◌, ◌++◌, Bool, true, false, ◌&&◌, ◌||◌, not, Option, none, some,
  Result, ok, ◌>>=◌, ◌>>◌, fail_if, ◌==◌, ltb, if◌then◌else◌,
}
use uflow.Prelude.Text.{Str, text}
use uflow.Prelude.Maps.{any_value}
use uflow.Recovery.Audit.Types.{
  ProcessBirth, DrainSnapshot, Event, EventKind, same_birth, same_domain, same_snapshot,
}
use uflow.Recovery.Audit.State.{AuditReplay, valid_birth, contains, observed_drain}
use uflow.Recovery.Audit.Backings.{
  register_intent, register_commit, register_abort, revoke, backing_close_intent,
  backing_close_done,
}
use uflow.Recovery.Audit.Views.{
  view_intent, view_commit, view_abort, view_commit_unconfirmed, view_not_sent,
  view_peer_terminated, view_close_intent, view_close_done,
}
use uflow.Recovery.Audit.Works.{
  work_intent, cancel_request, work_drained, work_io_completed, work_verified, publish_intent,
  publish_done, publish_abort,
}

-- `!list.is_empty()`
abbrev pub is_filled {ℓ} : {A : Type ℓ} → List A → Bool
is_filled [] = false
is_filled (x ∷ xs) = true

unfoldable pub broker_birth : AuditReplay → ℕ → ProcessBirth → Result Str AuditReplay
broker_birth s epoch birth = do
  fail_if
      (not (valid_birth birth)
        || is_some s.broker_birth
        || not (epoch == 0)
        || is_filled s.backings
        || is_filled s.views
        || is_filled s.works
        || is_filled s.terminated)
      (text "invalid or late broker birth")
  ok (record s { broker_birth = some birth })

unfoldable pub peer_terminated : AuditReplay → ProcessBirth → Result Str AuditReplay
peer_terminated s birth = do
  fail_if
      (not (any_value (λ b. same_birth b.identity.owner birth) s.backings)
        && not (any_value (λ v. same_birth v.identity.accessor birth) s.views))
      (text "unknown terminated peer birth")
  ok (record s {
    terminated = if contains birth s.terminated then s.terminated else s.terminated ++ (birth ∷ []);
  })

unfoldable pub broker_drained : AuditReplay → DrainSnapshot → Result Str AuditReplay
broker_drained s snapshot = do
  fail_if
      (not (same_snapshot snapshot (observed_drain s snapshot.handlers snapshot.reservations))
        || not (snapshot.handlers == 0)
        || not (snapshot.pending_handoffs == 0)
        || not (snapshot.in_flight == 0))
      (text "broker drain counts mismatch or unfinished work")
  ok (record s { drained = true; drained_snapshot = some snapshot })

abbrev pub is_snapshot : DrainSnapshot → Option DrainSnapshot → Bool
is_snapshot snapshot none = false
is_snapshot snapshot (some kept) = same_snapshot kept snapshot

unfoldable pub clean_checkpoint : AuditReplay → DrainSnapshot → Result Str AuditReplay
clean_checkpoint s snapshot = do
  fail_if
      (not s.drained
        || not (is_snapshot snapshot s.drained_snapshot)
        || not (same_snapshot snapshot (observed_drain s 0 0))
        || not (snapshot.handlers == 0)
        || not (snapshot.pending_handoffs == 0)
        || not (snapshot.retained_backings == 0)
        || not (snapshot.active_views == 0)
        || not (snapshot.reservations == 0)
        || not (snapshot.in_flight == 0)
        || not (snapshot.potential_holders == 0))
      (text "clean checkpoint requires a verified zero-obligation drain")
  ok (record s { checkpointed = true })

-- `matches!(kind, EventKind::CleanCheckpoint(_))`
abbrev pub is_checkpoint : EventKind → Bool
is_checkpoint (EventKind.clean_checkpoint snapshot) = true
is_checkpoint _ = false

-- The `match` of `apply`.
unfoldable pub apply_kind : ℕ → AuditReplay → ℕ → EventKind → Result Str AuditReplay
apply_kind seals s epoch (EventKind.broker_birth birth) = broker_birth s epoch birth
apply_kind seals s epoch (EventKind.register_intent i) = register_intent s i
apply_kind seals s epoch (EventKind.register_commit o g) = register_commit s o g
apply_kind seals s epoch (EventKind.register_abort o g) = register_abort s o g
apply_kind seals s epoch (EventKind.revoke o g) = revoke s o g
apply_kind seals s epoch (EventKind.backing_close_intent o g) = backing_close_intent s o g
apply_kind seals s epoch (EventKind.backing_close_done o g) = backing_close_done s o g
apply_kind seals s epoch (EventKind.view_intent i) = view_intent s i
apply_kind seals s epoch (EventKind.view_commit v l) = view_commit s v l
apply_kind seals s epoch (EventKind.view_abort v l) = view_abort s v l
apply_kind seals s epoch (EventKind.view_commit_unconfirmed v l) = view_commit_unconfirmed s v l
apply_kind seals s epoch (EventKind.view_not_sent v l) = view_not_sent s v l
apply_kind seals s epoch (EventKind.view_peer_terminated v l) = view_peer_terminated s v l
apply_kind seals s epoch (EventKind.view_close_intent v l) = view_close_intent s v l
apply_kind seals s epoch (EventKind.view_close_done v l) = view_close_done s v l
apply_kind seals s epoch (EventKind.work_intent i) = work_intent s i
apply_kind seals s epoch (EventKind.cancel_request w) = cancel_request s w
apply_kind seals s epoch (EventKind.work_drained w) = work_drained s w
apply_kind seals s epoch (EventKind.work_io_completed w copied) = work_io_completed s w copied
apply_kind seals s epoch (EventKind.work_verified w copied verified) =
    work_verified s w copied verified
apply_kind seals s epoch (EventKind.publish_intent w) = publish_intent s w
apply_kind seals s epoch (EventKind.publish_done w bits) = publish_done seals s w bits
apply_kind seals s epoch (EventKind.publish_abort w) = publish_abort s w
apply_kind seals s epoch (EventKind.peer_terminated birth) = peer_terminated s birth
apply_kind seals s epoch (EventKind.broker_drained snapshot) = broker_drained s snapshot
apply_kind seals s epoch (EventKind.clean_checkpoint snapshot) = clean_checkpoint s snapshot

-- `apply`; `seals` are the bits `F_SEAL_GROW | F_SEAL_SHRINK | F_SEAL_WRITE | F_SEAL_SEAL`.
unfoldable pub apply : ℕ → AuditReplay → Event → Result Str AuditReplay
apply seals s e = do
  fail_if
      (not (same_domain e.domain s.domain)
        || ltb e.epoch s.epoch
        || s.checkpointed
        || (s.drained && not (is_checkpoint e.kind)))
      (text "audit domain or epoch mismatch")
  t ← apply_kind seals s e.epoch e.kind
  ok (record t { epoch = e.epoch })

-- The replay of a sequence of events.
unfoldable pub replay : ℕ → AuditReplay → List Event → Result Str AuditReplay
replay seals s [] = ok s
replay seals s (e ∷ es) = do t ← apply seals s e; replay seals t es
