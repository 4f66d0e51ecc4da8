-- ===== src/Recovery/Audit/WorkGuards.antt =====
-- The events on copies of crates/uf-daemon/src/ddr_recovery_audit.rs, against what is demanded of them.
use uflow.Prelude.{
  ℕ, ◌≡◌, ◌≢◌, ◌⊎◌, true, false, ◌&&◌, ◌==◌, none, some, ok, arith, inl, inr, Option, Option-cases,
  Result-cases, nat_key, Bool-cases,
}
use uflow.Prelude.Maps.{get}
use uflow.Recovery.Audit.Types.{WorkIdentity, EventKind, Purpose, same_purpose}
use uflow.Recovery.Audit.State.{AuditReplay, Backing, BackingState, Work, backing, same_state}
use uflow.Recovery.Audit.Works.{
  is_orphaned, cannot_publish, is_publishing_for, work_intent, cancel_request, work_drained,
  work_io_completed, work_verified, publish_intent, publish_done, publish_abort,
}
use uflow.Recovery.Audit.BackingGuards.{Live-backing}
use uflow.Recovery.Audit.Demands.{Between, Publishable}
use uflow.Recovery.Audit.Guards.{
  Allowed, work_new, work_known, work_running, work_moved_all, work_compared_all, publication_due,
  publication_sealed, publication_begun,
}

same_purpose_sound : (a b : Purpose) → same_purpose a b ≡ true → a ≡ b
same_purpose_sound Purpose.immutable b e = ground arith
same_purpose_sound Purpose.staging b e = ground arith
same_purpose_sound Purpose.probe_only b e = ground arith

is_publishing_for_sound :
    (id : ℕ) (work : Option ℕ) → is_publishing_for id work ≡ true → work ≡ some id
is_publishing_for_sound id none e = absurd (ground (arith, e))
is_publishing_for_sound id (some w) e = ground (arith, e)

-- Two files differ in the device or in the number.
distinct_files : (a b c d : ℕ) → (a == b && c == d) ≡ false → (a ≢ b) ⊎ (c ≢ d)
distinct_files a b c d e = elim (Bool-cases (a == b)) [
  | inl same ↦ inr (λ q. ground (arith, e, same, q))
  | inr other ↦ inl (λ q. ground (arith, other, q))
]

Between-backings :
    (s : AuditReplay) (i : WorkIdentity) (state : BackingState) (source target : Backing)
    → backing s i.source_id i.source_generation ≡ ok source
    → backing s i.target_id i.target_generation ≡ ok target
    → same_state source.state BackingState.active ≡ true
    → same_state target.state state ≡ true
    → is_orphaned s source target ≡ false
    → Between s i state source target
Between-backings s i state source target one two here there live = record {
  source_live = Live-backing s _ _ _ source one here;
  target_live = Live-backing s _ _ _ target two there;
  source_owner = ground (arith, live);
  target_owner = ground (arith, live);
}

Publishable-work :
    (s : AuditReplay) (id : ℕ) (w : Work)
    → get id s.works ≡ some w
    → cannot_publish w ≡ false
    → Publishable s id w
Publishable-work s id w found can = elim (Bool-cases w.verified) [
  | inl checked ↦ record {
    found = found;
    drained = ground (arith, can);
    ended = inl checked;
    kept = ground (arith, can);
    staged = same_purpose_sound w.identity.purpose Purpose.staging (ground (arith, can));
  }
  | inr unchecked ↦ record {
    found = found;
    drained = ground (arith, can);
    ended = inr (ground (arith, can, unchecked));
    kept = ground (arith, can);
    staged = same_purpose_sound w.identity.purpose Purpose.staging (ground (arith, can));
  }
]

module _ (seals epoch : ℕ) (s t : AuditReplay) where
  pub work_intent-Allowed :
      (i : WorkIdentity)
      → work_intent s i ≡ ok t
      → Allowed seals epoch s t (EventKind.work_intent i)
  unfolding work_intent
  work_intent-Allowed i e = elim (Option-cases (get i.work_id s.works)) [
    | inr (x, there) ↦ absurd (ground (arith, there))
    | inl free ↦ elim (Result-cases (backing s i.source_id i.source_generation)) [
      | inr (x, bad) ↦ absurd (ground (arith, free, bad))
      | inl (source, one) ↦ elim (Result-cases (backing s i.target_id i.target_generation)) [
        | inr (x, bad) ↦ absurd (ground (arith, free, one, bad))
        | inl (target, two) ↦
            work_new i source target (ground (arith, free, one, two))
              (λ zero. ground (arith, free, one, two, zero)) free
              (Between-backings s i _ source target one two (ground (arith, free, one, two))
                (ground (arith, free, one, two)) (ground (arith, free, one, two)))
              (same_purpose_sound target.identity.purpose i.purpose
                (ground (arith, free, one, two)))
              (ground (arith, free, one, two)) (ground (arith, free, one, two))
              (distinct_files _ _ _ _ (ground (arith, free, one, two)))
              (ground (arith, free, one, two)) (ground (arith, free, one, two))
      ]
    ]
  ]

  pub cancel_request-Allowed :
      (id : ℕ) → cancel_request s id ≡ ok t → Allowed seals epoch s t (EventKind.cancel_request id)
  unfolding cancel_request
  cancel_request-Allowed id e = elim (Option-cases (get id s.works)) [
    | inl gone ↦ absurd (ground (arith, gone))
    | inr (w, found) ↦ work_known id w found (ground (arith, found))
  ]

  pub work_drained-Allowed :
      (id : ℕ) → work_drained s id ≡ ok t → Allowed seals epoch s t (EventKind.work_drained id)
  unfolding work_drained
  work_drained-Allowed id e = elim (Option-cases (get id s.works)) [
    | inl gone ↦ absurd (ground (arith, gone))
    | inr (w, found) ↦ work_running id w found (ground (arith, found)) (ground (arith, found))
  ]

  pub work_io_completed-Allowed :
      (id copied : ℕ)
      → work_io_completed s id copied ≡ ok t
      → Allowed seals epoch s t (EventKind.work_io_completed id copied)
  unfolding work_io_completed
  work_io_completed-Allowed id copied e = elim (Option-cases (get id s.works)) [
    | inl gone ↦ absurd (ground (arith, gone))
    | inr (w, found) ↦
        elim (Result-cases (backing s w.identity.source_id w.identity.source_generation)) [
          | inr (x, bad) ↦ absurd (ground (arith, found, bad))
          | inl (source, one) ↦
              elim (Result-cases (backing s w.identity.target_id w.identity.target_generation)) [
                | inr (x, bad) ↦ absurd (ground (arith, found, one, bad))
                | inl (target, two) ↦
                    work_moved_all id copied w source target
                      (record {
                        found = found;
                        drained = (ground (arith, found, one, two));
                        kept = (ground (arith, found, one, two));
                        whole = (ground (arith, found, one, two));
                      })
                      (ground (arith, found, one, two))
                      (Between-backings s w.identity _ source target one two
                        (ground (arith, found, one, two)) (ground (arith, found, one, two))
                        (ground (arith, found, one, two)))
                      (ground (arith, found, one, two))
              ]
        ]
  ]

  pub work_verified-Allowed :
      (id copied compared : ℕ)
      → work_verified s id copied compared ≡ ok t
      → Allowed seals epoch s t (EventKind.work_verified id copied compared)
  unfolding work_verified
  work_verified-Allowed id copied compared e = elim (Option-cases (get id s.works)) [
    | inl gone ↦ absurd (ground (arith, gone))
    | inr (w, found) ↦
        elim (Result-cases (backing s w.identity.source_id w.identity.source_generation)) [
          | inr (x, bad) ↦ absurd (ground (arith, found, bad))
          | inl (source, one) ↦
              elim (Result-cases (backing s w.identity.target_id w.identity.target_generation)) [
                | inr (x, bad) ↦ absurd (ground (arith, found, one, bad))
                | inl (target, two) ↦
                    work_compared_all id copied compared w source target
                      (record {
                        found = found;
                        drained = (ground (arith, found, one, two));
                        kept = (ground (arith, found, one, two));
                        whole = (ground (arith, found, one, two));
                      })
                      (ground (arith, found, one, two)) (ground (arith, found, one, two))
                      (Between-backings s w.identity _ source target one two
                        (ground (arith, found, one, two)) (ground (arith, found, one, two))
                        (ground (arith, found, one, two)))
                      (ground (arith, found, one, two))
              ]
        ]
  ]

  pub publish_intent-Allowed :
      (id : ℕ) → publish_intent s id ≡ ok t → Allowed seals epoch s t (EventKind.publish_intent id)
  unfolding publish_intent
  publish_intent-Allowed id e = elim (Option-cases (get id s.works)) [
    | inl gone ↦ absurd (ground (arith, gone))
    | inr (w, found) ↦
        elim (Result-cases (backing s w.identity.source_id w.identity.source_generation)) [
          | inr (x, bad) ↦ absurd (ground (arith, found, bad))
          | inl (source, one) ↦
              elim (Result-cases (backing s w.identity.target_id w.identity.target_generation)) [
                | inr (x, bad) ↦ absurd (ground (arith, found, one, bad))
                | inl (target, two) ↦
                    publication_due id w source target
                      (Publishable-work s id w found (ground (arith, found, one, two)))
                      (Between-backings s w.identity _ source target one two
                        (ground (arith, found, one, two)) (ground (arith, found, one, two))
                        (ground (arith, found, one, two)))
                      (ground (arith, found, one, two))
              ]
        ]
  ]

  pub publish_done-Allowed :
      (id bits : ℕ)
      → publish_done seals s id bits ≡ ok t
      → Allowed seals epoch s t (EventKind.publish_done id bits)
  unfolding publish_done
  publish_done-Allowed id bits e = elim (Option-cases (get id s.works)) [
    | inl gone ↦ absurd (ground (arith, gone))
    | inr (w, found) ↦
        elim (Result-cases (backing s w.identity.source_id w.identity.source_generation)) [
          | inr (x, bad) ↦ absurd (ground (arith, found, bad))
          | inl (source, one) ↦
              elim (Result-cases (backing s w.identity.target_id w.identity.target_generation)) [
                | inr (x, bad) ↦ absurd (ground (arith, found, one, bad))
                | inl (target, two) ↦
                    publication_sealed id bits w source target
                      (Publishable-work s id w found (ground (arith, found, one, two)))
                      (ground (arith, found, one, two))
                      (Between-backings s w.identity _ source target one two
                        (ground (arith, found, one, two)) (ground (arith, found, one, two))
                        (ground (arith, found, one, two)))
                      (is_publishing_for_sound id target.publishing_work
                        (ground (arith, found, one, two)))
                      (ground (arith, found, one, two))
              ]
        ]
  ]

  pub publish_abort-Allowed :
      (id : ℕ) → publish_abort s id ≡ ok t → Allowed seals epoch s t (EventKind.publish_abort id)
  unfolding publish_abort
  publish_abort-Allowed id e = elim (Option-cases (get id s.works)) [
    | inl gone ↦ absurd (ground (arith, gone))
    | inr (w, found) ↦
        elim (Result-cases (backing s w.identity.target_id w.identity.target_generation)) [
          | inr (x, bad) ↦ absurd (ground (arith, found, bad))
          | inl (target, two) ↦
              publication_begun id w target found
                (Live-backing s _ _ _ target two (ground (arith, found, two)))
                (is_publishing_for_sound id target.publishing_work (ground (arith, found, two)))
                (ground (arith, found, two))
        ]
  ]
