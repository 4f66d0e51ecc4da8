-- ===== src/Recovery/Audit/BackingMoves.antt =====
-- The events on backings of crates/uf-daemon/src/ddr_recovery_audit.rs, as steps of the specification.
use uflow.Prelude.{
  ℕ, ◌≡◌, refl, true, some, ok, arith, inl, inr, Option-cases, Result-cases, nat_key,
}
use uflow.Prelude.Maps.{get}
use uflow.Recovery.Audit.Types.{BackingIdentity}
use uflow.Recovery.Audit.State.{AuditReplay, Backing, BackingState, backing, same_state}
use uflow.Recovery.Audit.Backings.{
  register_intent, register_commit, register_abort, revoke, backing_close_intent,
  backing_close_done, committed_state,
}
use uflow.Recovery.Audit.Moves.{Move, backing_added, backing_moved, backing_closed}

pub same_state_sound : (a b : BackingState) → same_state a b ≡ true → a ≡ b
same_state_sound BackingState.provisional b e = ground arith
same_state_sound BackingState.active b e = ground arith
same_state_sound BackingState.pending b e = ground arith
same_state_sound BackingState.publishing b e = ground arith
same_state_sound BackingState.retired b e = ground arith
same_state_sound BackingState.closing b e = ground arith
same_state_sound BackingState.closed b e = ground arith

pub backing_effect :
    (s : AuditReplay) (id generation : ℕ) (b : Backing)
    → backing s id generation ≡ ok b
    → (get id s.backings ≡ some b) × (b.identity.resource_generation ≡ generation)
unfolding backing
backing_effect s id generation b e = elim (Option-cases (get id s.backings)) [
  | inl gone ↦ absurd (ground (arith, gone))
  | inr (x, there) ↦ (ground (arith, there), ground (arith, there))
]

module _ (s t : AuditReplay) where
  pub register_intent-Move : (i : BackingIdentity) → register_intent s i ≡ ok t → Move s t
  unfolding register_intent
  register_intent-Move i e = elim (Option-cases (get i.object_id s.backings)) [
    | inr (x, there) ↦ absurd (ground (arith, there))
    | inl free ↦
        backing_added i free (ground (arith, free)) (ground (arith, free)) (ground (arith, free))
  ]

  pub register_commit-Move : (o g : ℕ) → register_commit s o g ≡ ok t → Move s t
  unfolding register_commit
  register_commit-Move o g e = elim (Result-cases (backing s o g)) [
    | inr (x, bad) ↦ absurd (ground (arith, bad))
    | inl (b, there) ↦
        let (found, _) = backing_effect s o g b there in
        backing_moved o b (record b { state = committed_state b.identity.purpose }) found refl
          (ground (arith, there)) (ground (arith, there)) (ground (arith, there))
  ]

  pub register_abort-Move : (o g : ℕ) → register_abort s o g ≡ ok t → Move s t
  unfolding register_abort
  register_abort-Move o g e = elim (Result-cases (backing s o g)) [
    | inr (x, bad) ↦ absurd (ground (arith, bad))
    | inl (b, there) ↦
        let (found, _) = backing_effect s o g b there in
        backing_moved o b (record b { state = BackingState.retired }) found refl
          (ground (arith, there)) refl (ground (arith, there))
  ]

  pub revoke-Move : (o g : ℕ) → revoke s o g ≡ ok t → Move s t
  unfolding revoke
  revoke-Move o g e = elim (Result-cases (backing s o g)) [
    | inr (x, bad) ↦ absurd (ground (arith, bad))
    | inl (b, there) ↦
        let (found, _) = backing_effect s o g b there in
        backing_moved o b (record b { state = BackingState.retired }) found refl
          (ground (arith, there)) refl (ground (arith, there))
  ]

  pub backing_close_intent-Move : (o g : ℕ) → backing_close_intent s o g ≡ ok t → Move s t
  unfolding backing_close_intent
  backing_close_intent-Move o g e = elim (Result-cases (backing s o g)) [
    | inr (x, bad) ↦ absurd (ground (arith, bad))
    | inl (b, there) ↦
        let (found, _) = backing_effect s o g b there in
        backing_moved o b (record b { state = BackingState.closing }) found refl
          (ground (arith, there)) refl (ground (arith, there))
  ]

  pub backing_close_done-Move : (o g : ℕ) → backing_close_done s o g ≡ ok t → Move s t
  unfolding backing_close_done
  backing_close_done-Move o g e = elim (Result-cases (backing s o g)) [
    | inr (x, bad) ↦ absurd (ground (arith, bad))
    | inl (b, there) ↦
        let (found, _) = backing_effect s o g b there in
        backing_closed o b found
          (same_state_sound b.state BackingState.closing (ground (arith, there)))
          (ground (arith, there)) (ground (arith, there)) (ground (arith, there))
  ]
