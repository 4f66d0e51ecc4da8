-- ===== src/Recovery/Audit/Links.antt =====
-- References of views and copies along a replay of crates/uf-daemon/src/ddr_recovery_audit.rs.
use uflow.Prelude.{ℕ, ◌≡◌, refl, ◌⊎◌, inl, true, false, List, ok, arith, nat_key}
use uflow.Prelude.Maps.{get, insert}
use uflow.Recovery.Audit.Types.{Domain, Event}
use uflow.Recovery.Audit.State.{AuditReplay, View, Work, new}
use uflow.Recovery.Audit.Apply.{replay}
use uflow.Recovery.Audit.Moves.{
  Move, new_backing, new_view, new_work, may_turn, broker_known, backing_added, backing_moved,
  backing_closed, view_added, view_moved, work_added, work_moved, peer_seen, drain_seen,
  checkpoint_taken,
}
use uflow.Recovery.Audit.Integrity.{
  Linked, ViewCovered, SourceCovered, TargetCovered, fresh, updated, relaxed, ranges_held,
  every_insert, rewritten-Linked, closed-Linked,
}
use uflow.Recovery.Audit.Runs.{replay_keeps, new-Empty}

module _ (s : AuditReplay) where
  view_written-Linked :
      (id : ℕ) (now : View)
      → ViewCovered s.backings now
      → Linked s
      → Linked (record s { views = insert id now s.views })
  view_written-Linked id now covered links = record {
    views = every_insert (ViewCovered s.backings) id now s.views covered links.views;
    sources = links.sources;
    targets = links.targets;
  }

  work_written-Linked :
      (id : ℕ) (now : Work)
      → SourceCovered s.backings now
      → TargetCovered s.backings now
      → Linked s
      → Linked (record s { works = insert id now s.works })
  work_written-Linked id now source target links = record {
    views = links.views;
    sources = every_insert (SourceCovered s.backings) id now s.works source links.sources;
    targets = every_insert (TargetCovered s.backings) id now s.works target links.targets;
  }

  view_turned :
      (old now : View)
      → now.identity ≡ old.identity
      → may_turn old.state now.state ≡ true
      → ViewCovered s.backings old
      → ViewCovered s.backings now
  view_turned old now same turns c = rw same (relaxed (λ quiet. ground arith) c)

  work_turned :
      (old now : Work)
      → now.identity ≡ old.identity
      → (old.drained ≡ false) ⊎ (now.drained ≡ true)
      → SourceCovered s.backings old × TargetCovered s.backings old
      → SourceCovered s.backings now × TargetCovered s.backings now
  work_turned old now same drains (source, target) =
      rw same (relaxed (λ quiet. ground arith) source, relaxed (λ quiet. ground arith) target)

  same_maps-Linked :
      {t : AuditReplay}
      → t.backings ≡ s.backings
      → t.views ≡ s.views
      → t.works ≡ s.works
      → Linked s
      → Linked t
  same_maps-Linked same_backings same_views same_works links = record {
    views = rw (same_backings, same_views) links.views;
    sources = rw (same_backings, same_works) links.sources;
    targets = rw (same_backings, same_works) links.targets;
  }

  module _ (t : AuditReplay) where
    pub step-Linked : Move s t → Linked s → Linked t
    step-Linked (backing_added i free total_fits owner_fits is) links =
        rw is (rewritten-Linked s i.object_id (new_backing i) (λ o at_rest. fresh free) links)
    step-Linked (backing_moved id old now there same becomes stays is) links =
        rw is (rewritten-Linked s id now (λ o at_rest. updated old there same (inl stays)) links)
    step-Linked (backing_closed id old there in_state views works is) links =
        rw is (closed-Linked s id old there views works links)
    step-Linked (view_added i b free source inside is) links =
        rw is (
          view_written-Linked i.view_id (new_view i) (ranges_held {s = s} source refl inside) links)
    step-Linked (view_moved id old now there same turns is) links = rw is (
        view_written-Linked id now (view_turned old now same turns (links.views id old there))
          links)
    step-Linked (work_added i source target free from into first second is) links = rw is (
        work_written-Linked i.work_id (new_work i) (ranges_held {s = s} from refl first)
          (ranges_held {s = s} into refl second) links)
    step-Linked (work_moved id old now there same drains is) links =
        let (source, target) =
          work_turned old now same drains
            (links.sources id old there, links.targets id old there) in
        rw is (work_written-Linked id now source target links)
    step-Linked (broker_known birth is) links =
        same_maps-Linked (ground (arith, is)) (ground (arith, is)) (ground (arith, is)) links
    step-Linked (peer_seen birth is) links =
        same_maps-Linked (ground (arith, is)) (ground (arith, is)) (ground (arith, is)) links
    step-Linked (drain_seen snapshot is) links =
        same_maps-Linked (ground (arith, is)) (ground (arith, is)) (ground (arith, is)) links
    step-Linked (checkpoint_taken done zero is) links =
        same_maps-Linked (ground (arith, is)) (ground (arith, is)) (ground (arith, is)) links

new-Linked : (d : Domain) (s : AuditReplay) → new d ≡ ok s → Linked s
unfolding new get
new-Linked d s made =
    let (_, _, no_views, no_works, _) = new-Empty d s made in
    record {
      views = λ id v there. absurd (ground (arith, there, no_views));
      sources = λ id w there. absurd (ground (arith, there, no_works));
      targets = λ id w there. absurd (ground (arith, there, no_works));
    }

-- In every replay from a new state, the object generation that a view, or the source or the target of a copy,
-- names is recorded and its range lies within the object; and the object is not closed while the view is
-- unresolved or the copy has not drained.
pub replay-Linked :
    (seals : ℕ) (d : Domain) (s t : AuditReplay) (es : List Event)
    → new d ≡ ok s
    → replay seals s es ≡ ok t
    → Linked t
replay-Linked seals d s t es made run =
    replay_keeps Linked (λ u v unfinished move p. step-Linked u v move p)
      (λ u epoch p. same_maps-Linked u refl refl refl p) seals s t es run (new-Linked d s made)
