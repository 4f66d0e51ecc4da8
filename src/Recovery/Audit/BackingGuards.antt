-- ===== src/Recovery/Audit/BackingGuards.antt =====
-- The events on backings and on the broker of crates/uf-daemon/src/ddr_recovery_audit.rs, against what is
-- demanded of them.
use uflow.Prelude.{
  ℕ, ◌≡◌, refl, sym, true, ok, arith, inl, inr, Option-cases, Result-cases, nat_key, List, [], ◌∷◌,
  false, Bool-cases,
}
use uflow.Prelude.Maps.{get, any_value}
use uflow.Recovery.Audit.Types.{
  ProcessBirth, BackingIdentity, DrainSnapshot, EventKind, same_snapshot, same_birth,
}
use uflow.Recovery.Audit.State.{
  AuditReplay, Backing, BackingState, backing, same_state, observed_drain,
}
use uflow.Recovery.Audit.Backings.{
  register_intent, register_commit, register_abort, revoke, backing_close_intent,
  backing_close_done,
}
use uflow.Recovery.Audit.Apply.{
  broker_birth, peer_terminated, broker_drained, clean_checkpoint, is_filled,
}
use uflow.Recovery.Audit.Moves.{Live}
use uflow.Recovery.Audit.BackingMoves.{backing_effect, same_state_sound}
use uflow.Recovery.Audit.Guards.{
  Allowed, birth_first, backing_new, backing_owned, backing_unregistered, backing_registered,
  backing_revoked, backing_unused, peer_known, drain_observed, checkpoint_clean,
}

pub same_snapshot_sound : (a b : DrainSnapshot) → same_snapshot a b ≡ true → a ≡ b
unfolding same_snapshot
same_snapshot_sound a b same = ground arith

pub Live-backing :
    (s : AuditReplay) (id generation : ℕ) (state : BackingState) (b : Backing)
    → backing s id generation ≡ ok b
    → same_state b.state state ≡ true
    → Live s id generation state b
Live-backing s id generation state b there here =
    let (found, current) = backing_effect s id generation b there in
    record { found = found; current = current; in_state = same_state_sound b.state state here }

is_filled_sound {ℓ} : {A : Type ℓ} (xs : List A) → is_filled xs ≡ false → xs ≡ []
is_filled_sound [] e = refl
is_filled_sound (x ∷ xs) e = absurd (ground (arith, e))

module _ (seals epoch : ℕ) (s t : AuditReplay) where
  pub broker_birth-Allowed :
      (birth : ProcessBirth)
      → broker_birth s epoch birth ≡ ok t
      → Allowed seals epoch s t (EventKind.broker_birth birth)
  unfolding broker_birth
  broker_birth-Allowed birth e = elim (Option-cases s.broker_birth) [
    | inr (x, there) ↦ absurd (ground (arith, there))
    | inl first ↦
        birth_first birth (ground (arith, first)) first (ground (arith, first))
          (is_filled_sound s.backings (ground (arith, first)))
          (is_filled_sound s.views (ground (arith, first)))
          (is_filled_sound s.works (ground (arith, first)))
          (is_filled_sound s.terminated (ground (arith, first))) (ground (arith, first))
  ]

  pub register_intent-Allowed :
      (i : BackingIdentity)
      → register_intent s i ≡ ok t
      → Allowed seals epoch s t (EventKind.register_intent i)
  unfolding register_intent
  register_intent-Allowed i e = elim (Option-cases (get i.object_id s.backings)) [
    | inr (x, there) ↦ absurd (ground (arith, there))
    | inl free ↦
        backing_new i (ground (arith, free)) free (ground (arith, free)) (ground (arith, free))
          (ground (arith, free)) (ground (arith, free)) (ground (arith, free))
          (ground (arith, free))
  ]

  pub register_commit-Allowed :
      (o g : ℕ)
      → register_commit s o g ≡ ok t
      → Allowed seals epoch s t (EventKind.register_commit o g)
  unfolding register_commit
  register_commit-Allowed o g e = elim (Result-cases (backing s o g)) [
    | inr (x, bad) ↦ absurd (ground (arith, bad))
    | inl (b, there) ↦
        backing_owned o g b (Live-backing s o g _ b there (ground (arith, there)))
          (ground (arith, there)) (ground (arith, there))
  ]

  pub register_abort-Allowed :
      (o g : ℕ)
      → register_abort s o g ≡ ok t
      → Allowed seals epoch s t (EventKind.register_abort o g)
  unfolding register_abort
  register_abort-Allowed o g e = elim (Result-cases (backing s o g)) [
    | inr (x, bad) ↦ absurd (ground (arith, bad))
    | inl (b, there) ↦
        backing_unregistered o g b (Live-backing s o g _ b there (ground (arith, there)))
          (ground (arith, there))
  ]

  pub revoke-Allowed :
      (o g : ℕ) → revoke s o g ≡ ok t → Allowed seals epoch s t (EventKind.revoke o g)
  unfolding revoke
  revoke-Allowed o g e = elim (Result-cases (backing s o g)) [
    | inr (x, bad) ↦ absurd (ground (arith, bad))
    | inl (b, there) ↦ elim (Bool-cases (same_state b.state BackingState.active)) [
      | inl active ↦
          backing_registered o g b (inl (Live-backing s o g _ b there active))
            (ground (arith, there, active))
      | inr other ↦
          backing_registered o g b
            (inr (Live-backing s o g _ b there (ground (arith, there, other))))
            (ground (arith, there, other))
    ]
  ]

  pub backing_close_intent-Allowed :
      (o g : ℕ)
      → backing_close_intent s o g ≡ ok t
      → Allowed seals epoch s t (EventKind.backing_close_intent o g)
  unfolding backing_close_intent
  backing_close_intent-Allowed o g e = elim (Result-cases (backing s o g)) [
    | inr (x, bad) ↦ absurd (ground (arith, bad))
    | inl (b, there) ↦
        backing_revoked o g b (Live-backing s o g _ b there (ground (arith, there)))
          (ground (arith, there))
  ]

  pub backing_close_done-Allowed :
      (o g : ℕ)
      → backing_close_done s o g ≡ ok t
      → Allowed seals epoch s t (EventKind.backing_close_done o g)
  unfolding backing_close_done
  backing_close_done-Allowed o g e = elim (Result-cases (backing s o g)) [
    | inr (x, bad) ↦ absurd (ground (arith, bad))
    | inl (b, there) ↦
        backing_unused o g b (Live-backing s o g _ b there (ground (arith, there)))
          (ground (arith, there)) (ground (arith, there)) (ground (arith, there))
  ]

  pub peer_terminated-Allowed :
      (birth : ProcessBirth)
      → peer_terminated s birth ≡ ok t
      → Allowed seals epoch s t (EventKind.peer_terminated birth)
  unfolding peer_terminated
  peer_terminated-Allowed birth e =
      elim (Bool-cases (any_value (λ b. same_birth b.identity.owner birth) s.backings)) [
        | inl owner ↦ peer_known birth (inl owner) (ground (arith, owner))
        | inr other ↦ peer_known birth (inr (ground (arith, other))) (ground (arith, other))
      ]

  pub broker_drained-Allowed :
      (snapshot : DrainSnapshot)
      → broker_drained s snapshot ≡ ok t
      → Allowed seals epoch s t (EventKind.broker_drained snapshot)
  unfolding broker_drained
  broker_drained-Allowed snapshot e =
      let same =
        same_snapshot_sound snapshot (observed_drain s snapshot.handlers snapshot.reservations)
          (ground (arith, e)) in
      let none_left : snapshot.handlers ≡ 0 = ground (arith, e) in
      drain_observed snapshot (rw (← none_left) same) (ground (arith, e)) (ground (arith, e))
        (ground (arith, e))

  pub clean_checkpoint-Allowed :
      (snapshot : DrainSnapshot)
      → clean_checkpoint s snapshot ≡ ok t
      → Allowed seals epoch s t (EventKind.clean_checkpoint snapshot)
  unfolding clean_checkpoint
  clean_checkpoint-Allowed snapshot e = elim (Option-cases s.drained_snapshot) [
    | inl gone ↦ absurd (ground (arith, gone))
    | inr (kept, there) ↦
        let same = same_snapshot_sound kept snapshot (ground (arith, there)) in
        let now = same_snapshot_sound snapshot (observed_drain s 0 0) (ground (arith, there)) in
        checkpoint_clean snapshot (ground (arith, there)) (rw (← same) there) (sym now)
          (ground (arith, there)) (ground (arith, there))
  ]
