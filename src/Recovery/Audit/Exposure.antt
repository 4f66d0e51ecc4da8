-- ===== src/Recovery/Audit/Exposure.antt =====
-- What no event of crates/uf-daemon/src/ddr_recovery_audit.rs undoes.
use uflow.Prelude.{ℕ, ◌≡◌, false, not, some, List, ok, arith, nat_key}
use uflow.Prelude.Maps.{get, get-insert, get_of_any_value}
use uflow.Recovery.Audit.Types.{Event}
use uflow.Recovery.Audit.State.{AuditReplay, View, ViewState, is_resolved}
use uflow.Recovery.Audit.Apply.{replay}
use uflow.Recovery.Audit.Moves.{
  Move, broker_known, backing_added, backing_moved, backing_closed, view_added, view_moved,
  work_added, work_moved, peer_seen, drain_seen, checkpoint_taken,
}
use uflow.Recovery.Audit.Checkpoint.{Idle, observed_none-Idle}
use uflow.Recovery.Audit.Runs.{replay_keeps}

-- The view is recorded as possibly exposed, and there is no checkpoint.
abbrev Exposed : ℕ → View → AuditReplay → Type 0
Exposed id v s = (get id s.views ≡ some v) × (s.checkpointed ≡ false)

exposed_unresolved :
    (s : AuditReplay) (id : ℕ) (v : View)
    → v.state ≡ ViewState.possibly_exposed
    → get id s.views ≡ some v
    → Idle s
    → ⊥
exposed_unresolved s id v exposed there idle = ground (
  arith,
  exposed,
  get_of_any_value (λ (w : View). not (is_resolved w.state)) id s.views idle.views there,
)

module _ (id : ℕ) (v : View) (exposed : v.state ≡ ViewState.possibly_exposed)
    (s t : AuditReplay) where
  step-Exposed : s.checkpointed ≡ false → Move s t → Exposed id v s → Exposed id v t
  step-Exposed unfinished (broker_known birth is) (there, _) =
      (ground (arith, is), ground (arith, is))
  step-Exposed unfinished (backing_added i free total_fits owner_fits is) (there, _) =
      (ground (arith, is), ground (arith, is))
  step-Exposed unfinished (backing_moved o old now here same becomes stays is) (there, _) =
      (ground (arith, is), ground (arith, is))
  step-Exposed unfinished (backing_closed o old here in_state views works is) (there, _) =
      (ground (arith, is), ground (arith, is))
  step-Exposed unfinished (view_added i b free source inside is) (there, _) = (
    ground (
      arith,
      is,
      free,
      get-insert i.view_id id (record { identity = i; state = ViewState.intent }) s.views,
    ),
    ground (arith, is),
  )
  step-Exposed unfinished (view_moved o old now here same turns is) (there, _) =
      (ground (arith, is, here, get-insert o id now s.views), ground (arith, is))
  step-Exposed unfinished (work_added i source target free from into first second is) (there, _) =
      (ground (arith, is), ground (arith, is))
  step-Exposed unfinished (work_moved o old now here same drains is) (there, _) =
      (ground (arith, is), ground (arith, is))
  step-Exposed unfinished (peer_seen birth is) (there, _) = (ground (arith, is), ground (arith, is))
  step-Exposed unfinished (drain_seen snapshot is) (there, _) =
      (ground (arith, is), ground (arith, is))
  step-Exposed unfinished (checkpoint_taken done zero is) (there, _) =
      absurd (exposed_unresolved s id v exposed there (observed_none-Idle s zero))

-- A view that may have been exposed, before a checkpoint, is still recorded, as it was, after any further events,
-- and no clean checkpoint has been taken by them.
pub replay-Exposed :
    (seals id : ℕ) (v : View) (s t : AuditReplay) (es : List Event)
    → v.state ≡ ViewState.possibly_exposed
    → get id s.views ≡ some v
    → s.checkpointed ≡ false
    → replay seals s es ≡ ok t
    → (get id t.views ≡ some v) × (t.checkpointed ≡ false)
replay-Exposed seals id v s t es exposed there unfinished run =
    replay_keeps (Exposed id v) (step-Exposed id v exposed) (λ u epoch p. p) seals s t es run
      (there, unfinished)
