-- ===== src/Recovery/Audit/ViewGuards.antt =====
-- The events on views of crates/uf-daemon/src/ddr_recovery_audit.rs, against what is demanded of them.
use uflow.Prelude.{
  ℕ, ◌≡◌, true, none, some, ok, arith, inl, inr, Option, Option-cases, Result-cases, nat_key,
  Bool-cases,
}
use uflow.Prelude.Maps.{get}
use uflow.Recovery.Audit.Types.{ViewIdentity, EventKind}
use uflow.Recovery.Audit.State.{
  AuditReplay, View, ViewState, backing, view_mut, is_intent, is_active, is_closing,
}
use uflow.Recovery.Audit.Views.{
  check_parent, view_intent, view_commit, view_abort, view_commit_unconfirmed, view_not_sent,
  view_peer_terminated, view_close_intent, view_close_done,
}
use uflow.Recovery.Audit.BackingGuards.{Live-backing}
use uflow.Recovery.Audit.Demands.{Leased, HasParent}
use uflow.Recovery.Audit.Guards.{
  Allowed, view_new, view_backed, view_unsettled, view_committed, view_unsent, view_orphaned,
  view_open, view_left,
}

is_intent_sound : (v : ViewState) → is_intent v ≡ true → v ≡ ViewState.intent
is_intent_sound v e = ground arith

is_active_sound : (v : ViewState) → is_active v ≡ true → v ≡ ViewState.active
is_active_sound v e = ground arith

is_closing_sound : (v : ViewState) → is_closing v ≡ true → v ≡ ViewState.closing
is_closing_sound v e = ground arith

Leased-view_mut :
    (s : AuditReplay) (id lease : ℕ) (state : ViewState) (v : View)
    → view_mut s id lease ≡ ok v
    → v.state ≡ state
    → Leased s id lease state v
unfolding view_mut
Leased-view_mut s id lease state v there here = elim (Option-cases (get id s.views)) [
  | inl gone ↦ absurd (ground (arith, gone))
  | inr (x, found) ↦ record {
    found = ground (arith, found);
    same_lease = ground (arith, found);
    in_state = here;
  }
]

same_view :
    (s : AuditReplay) (id lease : ℕ) (seen v : View)
    → get id s.views ≡ some seen
    → view_mut s id lease ≡ ok v
    → seen ≡ v
unfolding view_mut
same_view s id lease seen v found there = ground (arith, found, there)

HasParent-check_parent :
    (s : AuditReplay) (i : ViewIdentity) (parent_id : Option ℕ)
    → check_parent s i parent_id ≡ ok tt
    → HasParent s i parent_id
unfolding check_parent
HasParent-check_parent s i none e = tt
HasParent-check_parent s i (some id) e = elim (Option-cases (get id s.views)) [
  | inl gone ↦ absurd (ground (arith, gone))
  | inr (parent, found) ↦ (parent, found, ground (arith, found))
]

module _ (seals epoch : ℕ) (s t : AuditReplay) where
  pub view_intent-Allowed :
      (i : ViewIdentity)
      → view_intent s i ≡ ok t
      → Allowed seals epoch s t (EventKind.view_intent i)
  unfolding view_intent
  view_intent-Allowed i e = elim (Option-cases (get i.view_id s.views)) [
    | inr (x, there) ↦ absurd (ground (arith, there))
    | inl free ↦ elim (Result-cases (backing s i.object_id i.resource_generation)) [
      | inr (x, bad) ↦ absurd (ground (arith, free, bad))
      | inl (b, there) ↦ elim (Result-cases (check_parent s i i.parent_view_id)) [
        | inr (x, bad) ↦ absurd (ground (arith, free, there, bad))
        | inl (tt, inside) ↦
            view_new i b (ground (arith, free, there)) free (ground (arith, free, there))
              (ground (arith, free, there)) (ground (arith, free, there))
              (Live-backing s _ _ _ b there (ground (arith, free, there)))
              (ground (arith, free, there)) (ground (arith, free, there))
              (ground (arith, free, there)) (HasParent-check_parent s i i.parent_view_id inside)
              (ground (arith, free, there, inside))
      ]
    ]
  ]

  pub view_commit-Allowed :
      (id lease : ℕ)
      → view_commit s id lease ≡ ok t
      → Allowed seals epoch s t (EventKind.view_commit id lease)
  unfolding view_commit
  view_commit-Allowed id lease e = elim (Option-cases (get id s.views)) [
    | inl gone ↦ absurd (ground (arith, gone))
    | inr (v, found) ↦
        elim (Result-cases (backing s v.identity.object_id v.identity.resource_generation)) [
          | inr (x, bad) ↦ absurd (ground (arith, found, bad))
          | inl (b, there) ↦
              view_backed id lease v b
                (record {
                  found = found;
                  same_lease = ground (arith, found, there);
                  in_state = is_intent_sound v.state (ground (arith, found, there));
                })
                (Live-backing s _ _ _ b there (ground (arith, found, there)))
                (ground (arith, found, there)) (ground (arith, found, there))
                (ground (arith, found, there))
        ]
  ]

  pub view_abort-Allowed :
      (id lease : ℕ)
      → view_abort s id lease ≡ ok t
      → Allowed seals epoch s t (EventKind.view_abort id lease)
  unfolding view_abort
  view_abort-Allowed id lease e = elim (Result-cases (view_mut s id lease)) [
    | inr (x, bad) ↦ absurd (ground (arith, bad))
    | inl (v, there) ↦
        view_unsettled id lease v
          (Leased-view_mut s id lease _ v there (is_intent_sound v.state (ground (arith, there))))
          (ground (arith, there))
  ]

  pub view_commit_unconfirmed-Allowed :
      (id lease : ℕ)
      → view_commit_unconfirmed s id lease ≡ ok t
      → Allowed seals epoch s t (EventKind.view_commit_unconfirmed id lease)
  unfolding view_commit_unconfirmed
  view_commit_unconfirmed-Allowed id lease e = elim (Result-cases (view_mut s id lease)) [
    | inr (x, bad) ↦ absurd (ground (arith, bad))
    | inl (v, there) ↦
        view_committed id lease v
          (Leased-view_mut s id lease _ v there (is_active_sound v.state (ground (arith, there))))
          (ground (arith, there))
  ]

  pub view_not_sent-Allowed :
      (id lease : ℕ)
      → view_not_sent s id lease ≡ ok t
      → Allowed seals epoch s t (EventKind.view_not_sent id lease)
  unfolding view_not_sent
  view_not_sent-Allowed id lease e = elim (Result-cases (view_mut s id lease)) [
    | inr (x, bad) ↦ absurd (ground (arith, bad))
    | inl (v, there) ↦
        view_unsent id lease v
          (Leased-view_mut s id lease _ v there (is_intent_sound v.state (ground (arith, there))))
          (ground (arith, there))
  ]

  pub view_close_intent-Allowed :
      (id lease : ℕ)
      → view_close_intent s id lease ≡ ok t
      → Allowed seals epoch s t (EventKind.view_close_intent id lease)
  unfolding view_close_intent
  view_close_intent-Allowed id lease e = elim (Result-cases (view_mut s id lease)) [
    | inr (x, bad) ↦ absurd (ground (arith, bad))
    | inl (v, there) ↦
        view_open id lease v
          (Leased-view_mut s id lease _ v there (is_active_sound v.state (ground (arith, there))))
          (ground (arith, there))
  ]

  pub view_close_done-Allowed :
      (id lease : ℕ)
      → view_close_done s id lease ≡ ok t
      → Allowed seals epoch s t (EventKind.view_close_done id lease)
  unfolding view_close_done
  view_close_done-Allowed id lease e = elim (Result-cases (view_mut s id lease)) [
    | inr (x, bad) ↦ absurd (ground (arith, bad))
    | inl (v, there) ↦
        view_left id lease v
          (Leased-view_mut s id lease _ v there (is_closing_sound v.state (ground (arith, there))))
          (ground (arith, there))
  ]

  pub view_peer_terminated-Allowed :
      (id lease : ℕ)
      → view_peer_terminated s id lease ≡ ok t
      → Allowed seals epoch s t (EventKind.view_peer_terminated id lease)
  unfolding view_peer_terminated
  view_peer_terminated-Allowed id lease e = elim (Option-cases (get id s.views)) [
    | inl gone ↦ absurd (ground (arith, gone))
    | inr (seen, found) ↦ elim (Result-cases (view_mut s id lease)) [
      | inr (x, bad) ↦ absurd (ground (arith, found, bad))
      | inl (v, there) ↦ elim (Bool-cases (is_intent v.state)) [
        | inl early ↦
            view_orphaned id lease v
              (inl (Leased-view_mut s id lease _ v there (is_intent_sound v.state early)))
              (rw (← same_view s id lease seen v found there) (ground (arith, found)))
              (ground (arith, found, there, early))
        | inr later ↦
            view_orphaned id lease v
              (inr (
                Leased-view_mut s id lease _ v there
                  (is_active_sound v.state (ground (arith, found, there, later)))))
              (rw (← same_view s id lease seen v found there) (ground (arith, found)))
              (ground (arith, found, there, later))
      ]
    ]
  ]
