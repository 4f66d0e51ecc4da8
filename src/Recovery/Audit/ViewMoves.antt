-- ===== src/Recovery/Audit/ViewMoves.antt =====
-- The events on views of crates/uf-daemon/src/ddr_recovery_audit.rs, as steps of the specification.
use uflow.Prelude.{ℕ, ◌≡◌, refl, some, ok, arith, inl, inr, Option-cases, Result-cases, nat_key}
use uflow.Prelude.Maps.{get}
use uflow.Recovery.Audit.Types.{ViewIdentity}
use uflow.Recovery.Audit.State.{AuditReplay, BackingState, View, ViewState, backing, view_mut}
use uflow.Recovery.Audit.Views.{
  check_parent, view_intent, view_commit, view_abort, view_commit_unconfirmed, view_not_sent,
  view_peer_terminated, view_close_intent, view_close_done,
}
use uflow.Recovery.Audit.Moves.{Move, view_added, view_moved}
use uflow.Recovery.Audit.BackingMoves.{backing_effect, same_state_sound}

view_mut_effect :
    (s : AuditReplay) (id lease : ℕ) (v : View)
    → view_mut s id lease ≡ ok v
    → get id s.views ≡ some v
unfolding view_mut
view_mut_effect s id lease v e = elim (Option-cases (get id s.views)) [
  | inl gone ↦ absurd (ground (arith, gone))
  | inr (x, there) ↦ ground (arith, there)
]

module _ (s t : AuditReplay) where
  pub view_intent-Move : (i : ViewIdentity) → view_intent s i ≡ ok t → Move s t
  unfolding view_intent
  view_intent-Move i e = elim (Option-cases (get i.view_id s.views)) [
    | inr (x, there) ↦ absurd (ground (arith, there))
    | inl free ↦ elim (Result-cases (backing s i.object_id i.resource_generation)) [
      | inr (x, bad) ↦ absurd (ground (arith, free, bad))
      | inl (b, there) ↦ elim (Result-cases (check_parent s i i.parent_view_id)) [
        | inr (x, bad) ↦ absurd (ground (arith, free, there, bad))
        | inl (done, inside) ↦
            let (found, current) = backing_effect s i.object_id i.resource_generation b there in
            view_added i b free
              (record {
                found = found;
                current = current;
                in_state =
                    same_state_sound b.state BackingState.active
                      (ground (arith, free, there, inside));
              })
              (ground (arith, free, there, inside)) (ground (arith, free, there, inside))
      ]
    ]
  ]

  pub view_commit-Move : (id lease : ℕ) → view_commit s id lease ≡ ok t → Move s t
  unfolding view_commit
  view_commit-Move id lease e = elim (Option-cases (get id s.views)) [
    | inl gone ↦ absurd (ground (arith, gone))
    | inr (v, there) ↦
        elim (Result-cases (backing s v.identity.object_id v.identity.resource_generation)) [
          | inr (x, bad) ↦ absurd (ground (arith, there, bad))
          | inl (b, here) ↦
              view_moved id v (record v { state = ViewState.active }) there refl
                (ground (arith, there, here)) (ground (arith, there, here))
        ]
  ]

  pub view_abort-Move : (id lease : ℕ) → view_abort s id lease ≡ ok t → Move s t
  unfolding view_abort
  view_abort-Move id lease e = elim (Result-cases (view_mut s id lease)) [
    | inr (x, bad) ↦ absurd (ground (arith, bad))
    | inl (v, there) ↦
        view_moved id v (record v { state = ViewState.possibly_exposed })
          (view_mut_effect s id lease v there) refl (ground (arith, there)) (ground (arith, there))
  ]

  pub view_commit_unconfirmed-Move :
      (id lease : ℕ) → view_commit_unconfirmed s id lease ≡ ok t → Move s t
  unfolding view_commit_unconfirmed
  view_commit_unconfirmed-Move id lease e = elim (Result-cases (view_mut s id lease)) [
    | inr (x, bad) ↦ absurd (ground (arith, bad))
    | inl (v, there) ↦
        view_moved id v (record v { state = ViewState.possibly_exposed })
          (view_mut_effect s id lease v there) refl (ground (arith, there)) (ground (arith, there))
  ]

  pub view_not_sent-Move : (id lease : ℕ) → view_not_sent s id lease ≡ ok t → Move s t
  unfolding view_not_sent
  view_not_sent-Move id lease e = elim (Result-cases (view_mut s id lease)) [
    | inr (x, bad) ↦ absurd (ground (arith, bad))
    | inl (v, there) ↦
        view_moved id v (record v { state = ViewState.not_sent })
          (view_mut_effect s id lease v there) refl (ground (arith, there)) (ground (arith, there))
  ]

  pub view_close_intent-Move : (id lease : ℕ) → view_close_intent s id lease ≡ ok t → Move s t
  unfolding view_close_intent
  view_close_intent-Move id lease e = elim (Result-cases (view_mut s id lease)) [
    | inr (x, bad) ↦ absurd (ground (arith, bad))
    | inl (v, there) ↦
        view_moved id v (record v { state = ViewState.closing })
          (view_mut_effect s id lease v there) refl (ground (arith, there)) (ground (arith, there))
  ]

  pub view_close_done-Move : (id lease : ℕ) → view_close_done s id lease ≡ ok t → Move s t
  unfolding view_close_done
  view_close_done-Move id lease e = elim (Result-cases (view_mut s id lease)) [
    | inr (x, bad) ↦ absurd (ground (arith, bad))
    | inl (v, there) ↦
        view_moved id v (record v { state = ViewState.closed }) (view_mut_effect s id lease v there)
          refl (ground (arith, there)) (ground (arith, there))
  ]

  pub view_peer_terminated-Move : (id lease : ℕ) → view_peer_terminated s id lease ≡ ok t → Move s t
  unfolding view_peer_terminated
  view_peer_terminated-Move id lease e = elim (Option-cases (get id s.views)) [
    | inl gone ↦ absurd (ground (arith, gone))
    | inr (seen, known) ↦ elim (Result-cases (view_mut s id lease)) [
      | inr (x, bad) ↦ absurd (ground (arith, known, bad))
      | inl (v, there) ↦
          view_moved id v (record v { state = ViewState.possibly_exposed })
            (view_mut_effect s id lease v there) refl (ground (arith, known, there))
            (ground (arith, known, there))
    ]
  ]
