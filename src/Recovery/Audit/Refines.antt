-- ===== src/Recovery/Audit/Refines.antt =====
-- `AuditReplay::apply` of crates/uf-daemon/src/ddr_recovery_audit.rs against the specification of its steps.
use uflow.Prelude.{
  ℕ, ◌≤◌, ◌≡◌, true, false, ok, arith, inl, inr, Result-cases, nat_key, ◌⊎◌, Bool-cases,
}
use uflow.Recovery.Audit.Types.{
  ProcessBirth, DrainSnapshot, Event, EventKind, same_snapshot, same_domain,
}
use uflow.Recovery.Audit.State.{AuditReplay, observed_drain}
use uflow.Recovery.Audit.Apply.{
  broker_birth, peer_terminated, broker_drained, clean_checkpoint, is_checkpoint, apply_kind, apply,
}
use uflow.Recovery.Audit.Moves.{Move, broker_known, peer_seen, drain_seen, checkpoint_taken}
use uflow.Recovery.Audit.Demands.{no_obligations}
use uflow.Recovery.Audit.Guards.{Allowed}
use uflow.Recovery.Audit.BackingGuards.{
  broker_birth-Allowed, register_intent-Allowed, register_commit-Allowed, register_abort-Allowed,
  revoke-Allowed, backing_close_intent-Allowed, backing_close_done-Allowed, peer_terminated-Allowed,
  broker_drained-Allowed, clean_checkpoint-Allowed,
}
use uflow.Recovery.Audit.ViewGuards.{
  view_intent-Allowed, view_commit-Allowed, view_abort-Allowed, view_commit_unconfirmed-Allowed,
  view_not_sent-Allowed, view_peer_terminated-Allowed, view_close_intent-Allowed,
  view_close_done-Allowed,
}
use uflow.Recovery.Audit.WorkGuards.{
  work_intent-Allowed, cancel_request-Allowed, work_drained-Allowed, work_io_completed-Allowed,
  work_verified-Allowed, publish_intent-Allowed, publish_done-Allowed, publish_abort-Allowed,
}
use uflow.Recovery.Audit.BackingMoves.{
  register_intent-Move, register_commit-Move, register_abort-Move, revoke-Move,
  backing_close_intent-Move, backing_close_done-Move,
}
use uflow.Recovery.Audit.ViewMoves.{
  view_intent-Move, view_commit-Move, view_abort-Move, view_commit_unconfirmed-Move,
  view_not_sent-Move, view_peer_terminated-Move, view_close_intent-Move, view_close_done-Move,
}
use uflow.Recovery.Audit.WorkMoves.{
  work_intent-Move, cancel_request-Move, work_drained-Move, work_io_completed-Move,
  work_verified-Move, publish_intent-Move, publish_done-Move, publish_abort-Move,
}

zero_snapshot :
    (a b : DrainSnapshot) → same_snapshot a b ≡ true → a ≡ no_obligations → b ≡ no_obligations
unfolding same_snapshot
zero_snapshot a b same zero = ground arith

module _ (s t : AuditReplay) where
  broker_birth-Move :
      (epoch : ℕ) (birth : ProcessBirth) → broker_birth s epoch birth ≡ ok t → Move s t
  unfolding broker_birth
  broker_birth-Move epoch birth e = broker_known birth (ground arith)

  peer_terminated-Move : (birth : ProcessBirth) → peer_terminated s birth ≡ ok t → Move s t
  unfolding peer_terminated
  peer_terminated-Move birth e = peer_seen birth (ground arith)

  broker_drained-Move : (snapshot : DrainSnapshot) → broker_drained s snapshot ≡ ok t → Move s t
  unfolding broker_drained
  broker_drained-Move snapshot e = drain_seen snapshot (ground arith)

  clean_checkpoint-Move : (snapshot : DrainSnapshot) → clean_checkpoint s snapshot ≡ ok t → Move s t
  unfolding clean_checkpoint
  clean_checkpoint-Move snapshot e =
      checkpoint_taken (ground arith)
        (zero_snapshot snapshot (observed_drain s 0 0) (ground arith) (ground arith)) (ground arith)

  pub apply_kind-Move :
      (seals epoch : ℕ) (k : EventKind) → apply_kind seals s epoch k ≡ ok t → Move s t
  unfolding apply_kind
  apply_kind-Move seals epoch (EventKind.broker_birth birth) e = broker_birth-Move epoch birth e
  apply_kind-Move seals epoch (EventKind.register_intent i) e = register_intent-Move s t i e
  apply_kind-Move seals epoch (EventKind.register_commit a b) e = register_commit-Move s t a b e
  apply_kind-Move seals epoch (EventKind.register_abort a b) e = register_abort-Move s t a b e
  apply_kind-Move seals epoch (EventKind.revoke a b) e = revoke-Move s t a b e
  apply_kind-Move seals epoch (EventKind.backing_close_intent a b) e =
      backing_close_intent-Move s t a b e
  apply_kind-Move seals epoch (EventKind.backing_close_done a b) e =
      backing_close_done-Move s t a b e
  apply_kind-Move seals epoch (EventKind.view_commit a b) e = view_commit-Move s t a b e
  apply_kind-Move seals epoch (EventKind.view_abort a b) e = view_abort-Move s t a b e
  apply_kind-Move seals epoch (EventKind.view_commit_unconfirmed a b) e =
      view_commit_unconfirmed-Move s t a b e
  apply_kind-Move seals epoch (EventKind.view_not_sent a b) e = view_not_sent-Move s t a b e
  apply_kind-Move seals epoch (EventKind.view_peer_terminated a b) e =
      view_peer_terminated-Move s t a b e
  apply_kind-Move seals epoch (EventKind.view_close_intent a b) e = view_close_intent-Move s t a b e
  apply_kind-Move seals epoch (EventKind.view_close_done a b) e = view_close_done-Move s t a b e
  apply_kind-Move seals epoch (EventKind.work_io_completed a b) e = work_io_completed-Move s t a b e
  apply_kind-Move seals epoch (EventKind.view_intent a) e = view_intent-Move s t a e
  apply_kind-Move seals epoch (EventKind.work_intent a) e = work_intent-Move s t a e
  apply_kind-Move seals epoch (EventKind.cancel_request a) e = cancel_request-Move s t a e
  apply_kind-Move seals epoch (EventKind.work_drained a) e = work_drained-Move s t a e
  apply_kind-Move seals epoch (EventKind.publish_intent a) e = publish_intent-Move s t a e
  apply_kind-Move seals epoch (EventKind.publish_abort a) e = publish_abort-Move s t a e
  apply_kind-Move seals epoch (EventKind.work_verified w c v) e = work_verified-Move s t w c v e
  apply_kind-Move seals epoch (EventKind.publish_done w bits) e =
      publish_done-Move s t seals w bits e
  apply_kind-Move seals epoch (EventKind.peer_terminated birth) e = peer_terminated-Move birth e
  apply_kind-Move seals epoch (EventKind.broker_drained snapshot) e = broker_drained-Move snapshot e
  apply_kind-Move seals epoch (EventKind.clean_checkpoint snapshot) e =
      clean_checkpoint-Move snapshot e

  pub apply_kind-Allowed :
      (seals epoch : ℕ) (k : EventKind)
      → apply_kind seals s epoch k ≡ ok t
      → Allowed seals epoch s t k
  unfolding apply_kind
  apply_kind-Allowed seals epoch (EventKind.broker_birth birth) e =
      broker_birth-Allowed seals epoch s t birth e
  apply_kind-Allowed seals epoch (EventKind.register_intent i) e =
      register_intent-Allowed seals epoch s t i e
  apply_kind-Allowed seals epoch (EventKind.register_commit a b) e =
      register_commit-Allowed seals epoch s t a b e
  apply_kind-Allowed seals epoch (EventKind.register_abort a b) e =
      register_abort-Allowed seals epoch s t a b e
  apply_kind-Allowed seals epoch (EventKind.revoke a b) e = revoke-Allowed seals epoch s t a b e
  apply_kind-Allowed seals epoch (EventKind.backing_close_intent a b) e =
      backing_close_intent-Allowed seals epoch s t a b e
  apply_kind-Allowed seals epoch (EventKind.backing_close_done a b) e =
      backing_close_done-Allowed seals epoch s t a b e
  apply_kind-Allowed seals epoch (EventKind.view_intent i) e =
      view_intent-Allowed seals epoch s t i e
  apply_kind-Allowed seals epoch (EventKind.view_commit a b) e =
      view_commit-Allowed seals epoch s t a b e
  apply_kind-Allowed seals epoch (EventKind.view_abort a b) e =
      view_abort-Allowed seals epoch s t a b e
  apply_kind-Allowed seals epoch (EventKind.view_commit_unconfirmed a b) e =
      view_commit_unconfirmed-Allowed seals epoch s t a b e
  apply_kind-Allowed seals epoch (EventKind.view_not_sent a b) e =
      view_not_sent-Allowed seals epoch s t a b e
  apply_kind-Allowed seals epoch (EventKind.view_peer_terminated a b) e =
      view_peer_terminated-Allowed seals epoch s t a b e
  apply_kind-Allowed seals epoch (EventKind.view_close_intent a b) e =
      view_close_intent-Allowed seals epoch s t a b e
  apply_kind-Allowed seals epoch (EventKind.view_close_done a b) e =
      view_close_done-Allowed seals epoch s t a b e
  apply_kind-Allowed seals epoch (EventKind.work_intent i) e =
      work_intent-Allowed seals epoch s t i e
  apply_kind-Allowed seals epoch (EventKind.cancel_request a) e =
      cancel_request-Allowed seals epoch s t a e
  apply_kind-Allowed seals epoch (EventKind.work_drained a) e =
      work_drained-Allowed seals epoch s t a e
  apply_kind-Allowed seals epoch (EventKind.work_io_completed a b) e =
      work_io_completed-Allowed seals epoch s t a b e
  apply_kind-Allowed seals epoch (EventKind.work_verified a b c) e =
      work_verified-Allowed seals epoch s t a b c e
  apply_kind-Allowed seals epoch (EventKind.publish_intent a) e =
      publish_intent-Allowed seals epoch s t a e
  apply_kind-Allowed seals epoch (EventKind.publish_done a b) e =
      publish_done-Allowed seals epoch s t a b e
  apply_kind-Allowed seals epoch (EventKind.publish_abort a) e =
      publish_abort-Allowed seals epoch s t a e
  apply_kind-Allowed seals epoch (EventKind.peer_terminated birth) e =
      peer_terminated-Allowed seals epoch s t birth e
  apply_kind-Allowed seals epoch (EventKind.broker_drained snapshot) e =
      broker_drained-Allowed seals epoch s t snapshot e
  apply_kind-Allowed seals epoch (EventKind.clean_checkpoint snapshot) e =
      clean_checkpoint-Allowed seals epoch s t snapshot e

-- An event that is accepted is in the domain of the replay, comes before a checkpoint, is a checkpoint if the
-- broker has drained, and sets its epoch, which is not below the one before. It has what the transition system
-- demands of its kind, and leads to the one state that this gives; and it is a step that the life cycles allow.
pub apply-Move :
    (seals : ℕ) (s t : AuditReplay) (e : Event)
    → apply seals s e ≡ ok t
    → (u : AuditReplay) × Move s u
      × (t ≡ record u { epoch = e.epoch })
      × (s.epoch ≤ e.epoch)
      × (s.checkpointed ≡ false)
      × (same_domain e.domain s.domain ≡ true)
      × (s.drained ≡ false ⊎ is_checkpoint e.kind ≡ true)
      × Allowed seals e.epoch s u e.kind
unfolding apply
apply-Move seals s t e accepted = elim (Result-cases (apply_kind seals s e.epoch e.kind)) [
  | inr (x, bad) ↦ absurd (ground (arith, bad))
  | inl (u, there) ↦ (
    u,
    apply_kind-Move s u seals e.epoch e.kind there,
    ground (arith, there),
    ground (arith, there),
    ground (arith, there),
    ground (arith, there),
    last u there,
    apply_kind-Allowed s u seals e.epoch e.kind there,
  )
]
  where
    last :
        (u : AuditReplay)
        → apply_kind seals s e.epoch e.kind ≡ ok u
        → s.drained ≡ false ⊎ is_checkpoint e.kind ≡ true
    last u there = elim (Bool-cases s.drained) [
      | inr undrained ↦ inl undrained
      | inl drained ↦ inr (ground (arith, accepted, there, drained))
    ]
