-- ===== src/Recovery/Audit/Demands.antt =====
-- What the events of crates/uf-daemon/src/ddr_recovery_audit.rs demand of views and copies.
use uflow.Prelude.{ℕ, ◌≡◌, ◌⊎◌, true, false, Option, none, some, nat_key}
use uflow.Prelude.Maps.{get}
use uflow.Recovery.Audit.Types.{ViewIdentity, WorkIdentity, DrainSnapshot, staging}
use uflow.Recovery.Audit.State.{AuditReplay, Backing, BackingState, View, ViewState, Work, contains}
use uflow.Recovery.Audit.Views.{is_outside_parent}
use uflow.Recovery.Audit.Moves.{Live}

-- Nothing is left to recover.
abbrev pub no_obligations : DrainSnapshot
no_obligations = record {
  handlers = 0;
  pending_handoffs = 0;
  retained_backings = 0;
  active_views = 0;
  reservations = 0;
  in_flight = 0;
  potential_holders = 0;
}

-- The view has the lease, in the state.
pub record Leased (s : AuditReplay) (view_id lease_id : ℕ) (state : ViewState) (v : View)
    : Type 0 where
  pub found : get view_id s.views ≡ some v
  pub same_lease : v.identity.lease_id ≡ lease_id
  pub in_state : v.state ≡ state

-- The source is active and the target in the state, both in the generation of the copy, and their owners live.
pub record Between (s : AuditReplay) (i : WorkIdentity) (state : BackingState)
    (source target : Backing) : Type 0 where
  pub source_live : Live s i.source_id i.source_generation BackingState.active source
  pub target_live : Live s i.target_id i.target_generation state target
  pub source_owner : contains source.identity.owner s.terminated ≡ false
  pub target_owner : contains target.identity.owner s.terminated ≡ false

-- The copy has drained and was not cancelled, and moved all its bytes.
pub record Copied (s : AuditReplay) (work_id copied : ℕ) (w : Work) : Type 0 where
  pub found : get work_id s.works ≡ some w
  pub drained : w.drained ≡ true
  pub kept : w.cancelled ≡ false
  pub whole : copied ≡ w.identity.bytes

-- The copy has ended well, and is for publication.
pub record Publishable (s : AuditReplay) (work_id : ℕ) (w : Work) : Type 0 where
  pub found : get work_id s.works ≡ some w
  pub drained : w.drained ≡ true
  pub ended : (w.verified ≡ true) ⊎ (w.io_completed ≡ true)
  pub kept : w.cancelled ≡ false
  pub staged : w.identity.purpose ≡ staging

-- The parent, if the view names one, is there, and the view is not outside it.
abbrev pub HasParent : AuditReplay → ViewIdentity → Option ℕ → Type 0
HasParent s i none = Unit
HasParent s i (some id) =
    (parent : View) × (get id s.views ≡ some parent) × (is_outside_parent i parent ≡ false)
