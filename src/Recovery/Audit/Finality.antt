-- ===== src/Recovery/Audit/Finality.antt =====
-- The ends of a replay of crates/uf-daemon/src/ddr_recovery_audit.rs: terminated processes, closed backings and
-- the checkpoint.
use uflow.Prelude.{
  ℕ, ◌≡◌, ◌⊎◌, inl, inr, true, false, some, List, [], ◌∷◌, ◌++◌, ok, err, arith, nat_key,
}
use uflow.Prelude.Text.{text}
use uflow.Prelude.Maps.{get, get-insert}
use uflow.Recovery.Audit.Types.{ProcessBirth, Domain, Event}
use uflow.Recovery.Audit.State.{AuditReplay, Backing, BackingState, new, is_closed, contains}
use uflow.Recovery.Audit.Apply.{apply, replay}
use uflow.Recovery.Audit.Moves.{
  Move, new_backing, broker_known, backing_added, backing_moved, backing_closed, view_added,
  view_moved, work_added, work_moved, peer_seen, drain_seen, checkpoint_taken,
}
use uflow.Recovery.Audit.Checkpoint.{Idle, observed_none-Idle}
use uflow.Recovery.Audit.Runs.{replay_keeps}

contains-append :
    (b : ProcessBirth) (xs ys : List ProcessBirth)
    → contains b xs ≡ true
    → contains b (xs ++ ys) ≡ true
unfolding contains
contains-append b [] ys there = ground arith
contains-append b (x ∷ xs) ys there = ground (arith, contains-append b xs ys)

-- The process is recorded as terminated, and there is no checkpoint.
abbrev Gone : ProcessBirth → AuditReplay → Type 0
Gone birth s = (contains birth s.terminated ≡ true) × (s.checkpointed ≡ false)

peers_remain :
    (s : AuditReplay) (birth : ProcessBirth) → contains birth s.terminated ≡ true → Idle s → ⊥
unfolding contains
peers_remain s birth there idle = ground (arith, there, idle.peers)

module _ (birth : ProcessBirth) (s t : AuditReplay) where
  step-Gone : s.checkpointed ≡ false → Move s t → Gone birth s → Gone birth t
  step-Gone unfinished (broker_known b is) (there, _) = (ground (arith, is), ground (arith, is))
  step-Gone unfinished (backing_added i free total_fits owner_fits is) (there, _) =
      (ground (arith, is), ground (arith, is))
  step-Gone unfinished (backing_moved o old now here same becomes stays is) (there, _) =
      (ground (arith, is), ground (arith, is))
  step-Gone unfinished (backing_closed o old here in_state views works is) (there, _) =
      (ground (arith, is), ground (arith, is))
  step-Gone unfinished (view_added i b free source inside is) (there, _) =
      (ground (arith, is), ground (arith, is))
  step-Gone unfinished (view_moved o old now here same turns is) (there, _) =
      (ground (arith, is), ground (arith, is))
  step-Gone unfinished (work_added i source target free from into first second is) (there, _) =
      (ground (arith, is), ground (arith, is))
  step-Gone unfinished (work_moved o old now here same drains is) (there, _) =
      (ground (arith, is), ground (arith, is))
  step-Gone unfinished (peer_seen b is) (there, _) =
      (ground (arith, is, contains-append birth s.terminated (b ∷ [])), ground (arith, is))
  step-Gone unfinished (drain_seen snapshot is) (there, _) =
      (ground (arith, is), ground (arith, is))
  step-Gone unfinished (checkpoint_taken done zero is) (there, _) =
      absurd (peers_remain s birth there (observed_none-Idle s zero))

-- A process that has been seen to terminate, before a checkpoint, is still recorded as terminated after any further
-- events, and no clean checkpoint has been taken by them.
pub replay-Gone :
    (seals : ℕ) (birth : ProcessBirth) (s t : AuditReplay) (es : List Event)
    → contains birth s.terminated ≡ true
    → s.checkpointed ≡ false
    → replay seals s es ≡ ok t
    → (contains birth t.terminated ≡ true) × (t.checkpointed ≡ false)
replay-Gone seals birth s t es there unfinished run =
    replay_keeps (Gone birth) (step-Gone birth) (λ u epoch p. p) seals s t es run
      (there, unfinished)

-- The object is recorded as the backing.
abbrev Recorded : ℕ → Backing → AuditReplay → Type 0
Recorded id b s = get id s.backings ≡ some b

module _ (id : ℕ) (b : Backing) (closed : is_closed b.state ≡ true) (s t : AuditReplay) where
  step-Recorded : s.checkpointed ≡ false → Move s t → Recorded id b s → Recorded id b t
  step-Recorded unfinished (broker_known birth is) there = ground (arith, is)
  step-Recorded unfinished (backing_added i free total_fits owner_fits is) there =
      ground (arith, is, free, get-insert i.object_id id (new_backing i) s.backings)
  step-Recorded unfinished (backing_moved o old now here same becomes stays is) there =
      ground (arith, is, here, get-insert o id now s.backings)
  step-Recorded unfinished (backing_closed o old here in_state views works is) there =
      ground
        (arith, is, here, get-insert o id (record old { state = BackingState.closed }) s.backings)
  step-Recorded unfinished (view_added i v free source inside is) there = ground (arith, is)
  step-Recorded unfinished (view_moved o old now here same turns is) there = ground (arith, is)
  step-Recorded unfinished (work_added i source target free from into first second is) there =
      ground (arith, is)
  step-Recorded unfinished (work_moved o old now here same drains is) there = ground (arith, is)
  step-Recorded unfinished (peer_seen birth is) there = ground (arith, is)
  step-Recorded unfinished (drain_seen snapshot is) there = ground (arith, is)
  step-Recorded unfinished (checkpoint_taken done zero is) there = ground (arith, is)

-- A backing that is closed is recorded unchanged after any further events: none reopens it, and none registers
-- its object id again.
pub replay-Closed :
    (seals id : ℕ) (b : Backing) (s t : AuditReplay) (es : List Event)
    → is_closed b.state ≡ true
    → get id s.backings ≡ some b
    → replay seals s es ≡ ok t
    → get id t.backings ≡ some b
replay-Closed seals id b s t es closed there run =
    replay_keeps (Recorded id b) (step-Recorded id b closed) (λ u epoch p. p) seals s t es run there

-- There is no checkpoint, or nothing is held.
abbrev Settled : AuditReplay → Type 0
Settled s = (s.checkpointed ≡ false) ⊎ Idle s

module _ (s t : AuditReplay) (unfinished : s.checkpointed ≡ false) where
  step-Settled : Move s t → Settled s → Settled t
  step-Settled (broker_known birth is) p = inl (ground (arith, is))
  step-Settled (backing_added i free total_fits owner_fits is) p = inl (ground (arith, is))
  step-Settled (backing_moved o old now here same becomes stays is) p = inl (ground (arith, is))
  step-Settled (backing_closed o old here in_state views works is) p = inl (ground (arith, is))
  step-Settled (view_added i v free source inside is) p = inl (ground (arith, is))
  step-Settled (view_moved o old now here same turns is) p = inl (ground (arith, is))
  step-Settled (work_added i source target free from into first second is) p =
      inl (ground (arith, is))
  step-Settled (work_moved o old now here same drains is) p = inl (ground (arith, is))
  step-Settled (peer_seen birth is) p = inl (ground (arith, is))
  step-Settled (drain_seen snapshot is) p = inl (ground (arith, is))
  step-Settled (checkpoint_taken done zero is) p =
      let idle = observed_none-Idle s zero in
      inr (
        rw is (record {
          backings = idle.backings;
          views = idle.views;
          works = idle.works;
          peers = idle.peers;
        }))

-- The test that every event must pass.
finished_refuses :
    (seals : ℕ) (s : AuditReplay) (e : Event)
    → s.checkpointed ≡ true
    → apply seals s e ≡ err (text "audit domain or epoch mismatch")
unfolding apply
finished_refuses seals s e done = ground (arith, done)

holds_nothing : (s : AuditReplay) → s.checkpointed ≡ true → Settled s → Idle s
holds_nothing s done (inl unfinished) = absurd (ground (arith, done, unfinished))
holds_nothing s done (inr idle) = idle

-- When a replay from a new state has taken a clean checkpoint, all backings are closed, all views resolved, all
-- copies drained, no process terminated, and every further event is refused.
pub replay-Settled :
    (seals : ℕ) (d : Domain) (s t : AuditReplay) (es : List Event)
    → new d ≡ ok s
    → replay seals s es ≡ ok t
    → t.checkpointed ≡ true
    → Idle t × ((e : Event) → apply seals t e ≡ err (text "audit domain or epoch mismatch"))
unfolding new
replay-Settled seals d s t es made run done =
    let settled =
      replay_keeps Settled (λ u v unfinished move p. step-Settled u v unfinished move p)
        (λ u epoch p. dated u epoch p) seals s t es run (inl (ground (arith, made))) in
    (holds_nothing t done settled, λ e. finished_refuses seals t e done)
  where
    dated : (u : AuditReplay) (epoch : ℕ) → Settled u → Settled (record u { epoch = epoch })
    dated u epoch (inl unfinished) = inl unfinished
    dated u epoch (inr idle) = inr (record {
      backings = idle.backings;
      views = idle.views;
      works = idle.works;
      peers = idle.peers;
    })
