-- ===== src/Recovery/Audit/WorkMoves.antt =====
-- The events on copies of crates/uf-daemon/src/ddr_recovery_audit.rs, as steps of the specification.
use uflow.Prelude.{
  ℕ, ◌≡◌, refl, true, none, some, ok, arith, inl, inr, Option-cases, Result-cases, nat_key,
}
use uflow.Prelude.Maps.{get}
use uflow.Recovery.Audit.Types.{WorkIdentity}
use uflow.Recovery.Audit.State.{AuditReplay, BackingState, backing}
use uflow.Recovery.Audit.Works.{
  work_intent, cancel_request, work_drained, work_io_completed, work_verified, publish_intent,
  publish_done, publish_abort,
}
use uflow.Recovery.Audit.Moves.{Move, work_added, work_moved, backing_moved}
use uflow.Recovery.Audit.BackingMoves.{backing_effect, same_state_sound}

module _ (s t : AuditReplay) where
  pub work_intent-Move : (i : WorkIdentity) → work_intent s i ≡ ok t → Move s t
  unfolding work_intent
  work_intent-Move i e = elim (Option-cases (get i.work_id s.works)) [
    | inr (x, there) ↦ absurd (ground (arith, there))
    | inl free ↦ elim (Result-cases (backing s i.source_id i.source_generation)) [
      | inr (x, bad) ↦ absurd (ground (arith, free, bad))
      | inl (source, one) ↦ elim (Result-cases (backing s i.target_id i.target_generation)) [
        | inr (x, bad) ↦ absurd (ground (arith, free, one, bad))
        | inl (target, two) ↦
            let (found, current) = backing_effect s i.source_id i.source_generation source one in
            let (found2, current2) = backing_effect s i.target_id i.target_generation target two in
            work_added i source target free
              (record {
                found = found;
                current = current;
                in_state =
                    same_state_sound source.state BackingState.active
                      (ground (arith, free, one, two));
              })
              (record {
                found = found2;
                current = current2;
                in_state =
                    same_state_sound target.state BackingState.pending
                      (ground (arith, free, one, two));
              })
              (ground (arith, free, one, two)) (ground (arith, free, one, two))
              (ground (arith, free, one, two))
      ]
    ]
  ]

  pub cancel_request-Move : (id : ℕ) → cancel_request s id ≡ ok t → Move s t
  unfolding cancel_request
  cancel_request-Move id e = elim (Option-cases (get id s.works)) [
    | inl gone ↦ absurd (ground (arith, gone))
    | inr (w, there) ↦
        work_moved id w (record w { cancelled = true }) there refl (ground arith)
          (ground (arith, there))
  ]

  pub work_drained-Move : (id : ℕ) → work_drained s id ≡ ok t → Move s t
  unfolding work_drained
  work_drained-Move id e = elim (Option-cases (get id s.works)) [
    | inl gone ↦ absurd (ground (arith, gone))
    | inr (w, there) ↦
        work_moved id w (record w { drained = true }) there refl (inr refl) (ground (arith, there))
  ]

  pub work_io_completed-Move : (id copied : ℕ) → work_io_completed s id copied ≡ ok t → Move s t
  unfolding work_io_completed
  work_io_completed-Move id copied e = elim (Option-cases (get id s.works)) [
    | inl gone ↦ absurd (ground (arith, gone))
    | inr (w, there) ↦
        elim (Result-cases (backing s w.identity.source_id w.identity.source_generation)) [
          | inr (x, bad) ↦ absurd (ground (arith, there, bad))
          | inl (source, one) ↦
              elim (Result-cases (backing s w.identity.target_id w.identity.target_generation)) [
                | inr (x, bad) ↦ absurd (ground (arith, there, one, bad))
                | inl (target, two) ↦
                    work_moved id w (record w { io_completed = true }) there refl
                      (ground (arith, there, one, two)) (ground (arith, there, one, two))
              ]
        ]
  ]

  pub work_verified-Move :
      (id copied verified : ℕ) → work_verified s id copied verified ≡ ok t → Move s t
  unfolding work_verified
  work_verified-Move id copied verified e = elim (Option-cases (get id s.works)) [
    | inl gone ↦ absurd (ground (arith, gone))
    | inr (w, there) ↦
        elim (Result-cases (backing s w.identity.source_id w.identity.source_generation)) [
          | inr (x, bad) ↦ absurd (ground (arith, there, bad))
          | inl (source, one) ↦
              elim (Result-cases (backing s w.identity.target_id w.identity.target_generation)) [
                | inr (x, bad) ↦ absurd (ground (arith, there, one, bad))
                | inl (target, two) ↦
                    work_moved id w (record w { verified = true }) there refl
                      (ground (arith, there, one, two)) (ground (arith, there, one, two))
              ]
        ]
  ]

  pub publish_intent-Move : (id : ℕ) → publish_intent s id ≡ ok t → Move s t
  unfolding publish_intent
  publish_intent-Move id e = elim (Option-cases (get id s.works)) [
    | inl gone ↦ absurd (ground (arith, gone))
    | inr (w, there) ↦
        elim (Result-cases (backing s w.identity.source_id w.identity.source_generation)) [
          | inr (x, bad) ↦ absurd (ground (arith, there, bad))
          | inl (source, one) ↦
              elim (Result-cases (backing s w.identity.target_id w.identity.target_generation)) [
                | inr (x, bad) ↦ absurd (ground (arith, there, one, bad))
                | inl (target, two) ↦
                    let (found, _) =
                      backing_effect s w.identity.target_id w.identity.target_generation target
                        two in
                    backing_moved w.identity.target_id target
                      (record target { state = BackingState.publishing; publishing_work = some id })
                      found refl (ground (arith, there, one, two)) refl
                      (ground (arith, there, one, two))
              ]
        ]
  ]

  pub publish_done-Move :
      (required id seals : ℕ) → publish_done required s id seals ≡ ok t → Move s t
  unfolding publish_done
  publish_done-Move required id seals e = elim (Option-cases (get id s.works)) [
    | inl gone ↦ absurd (ground (arith, gone))
    | inr (w, there) ↦
        elim (Result-cases (backing s w.identity.source_id w.identity.source_generation)) [
          | inr (x, bad) ↦ absurd (ground (arith, there, bad))
          | inl (source, one) ↦
              elim (Result-cases (backing s w.identity.target_id w.identity.target_generation)) [
                | inr (x, bad) ↦ absurd (ground (arith, there, one, bad))
                | inl (target, two) ↦
                    let (found, _) =
                      backing_effect s w.identity.target_id w.identity.target_generation target
                        two in
                    backing_moved w.identity.target_id target
                      (record target { state = BackingState.active; publishing_work = none }) found
                      refl (ground (arith, there, one, two)) refl (ground (arith, there, one, two))
              ]
        ]
  ]

  pub publish_abort-Move : (id : ℕ) → publish_abort s id ≡ ok t → Move s t
  unfolding publish_abort
  publish_abort-Move id e = elim (Option-cases (get id s.works)) [
    | inl gone ↦ absurd (ground (arith, gone))
    | inr (w, there) ↦
        elim (Result-cases (backing s w.identity.target_id w.identity.target_generation)) [
          | inr (x, bad) ↦ absurd (ground (arith, there, bad))
          | inl (target, two) ↦
              let (found, _) =
                backing_effect s w.identity.target_id w.identity.target_generation target two in
              backing_moved w.identity.target_id target
                (record target { state = BackingState.pending; publishing_work = none }) found refl
                (ground (arith, there, two)) refl (ground (arith, there, two))
        ]
  ]
