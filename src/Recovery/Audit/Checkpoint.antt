-- ===== src/Recovery/Audit/Checkpoint.antt =====
-- The clean checkpoint of crates/uf-daemon/src/ddr_recovery_audit.rs.
use uflow.Prelude.{
  ℕ, ◌≡◌, ◌↔◌, refl, Bool, true, false, not, ◌||◌, some, [], ◌∷◌, ok, arith, nat_key,
  bytes_beq_refl,
}
use uflow.Prelude.Maps.{Map, any_value}
use uflow.Recovery.Audit.Types.{Domain, Event, EventKind, DrainSnapshot, same_snapshot, same_domain}
use uflow.Recovery.Audit.State.{
  AuditReplay, Backing, BackingState, View, Work, is_closed, is_resolved, is_intent, is_active,
  is_closing, same_state, observed_drain, active_work, total, count,
}
use uflow.Recovery.Audit.Apply.{
  clean_checkpoint, broker_drained, is_snapshot, apply, apply_kind, replay,
}
use uflow.Recovery.Audit.Demands.{no_obligations}
use uflow.Recovery.Audit.Holders.{count_none, unresolved_holders-none}

-- Nothing is held: the backings are closed, the views resolved, the copies drained, and no process terminated.
pub record Idle (s : AuditReplay) : Type 0 where
  pub backings : any_value (λ b. not (is_closed b.state)) s.backings ≡ false
  pub views : any_value (λ v. not (is_resolved v.state)) s.views ≡ false
  pub works : any_value (λ w. not w.drained) s.works ≡ false
  pub peers : s.terminated ≡ []

-- A test that only values pass that pass another.
narrower_none {ℓ} :
    {V : Type ℓ} (test wider : V → Bool)
    → ((v : V) → wider v ≡ false → test v ≡ false)
    → (m : Map ℕ V) → any_value wider m ≡ false
    → count test m ≡ 0
unfolding any_value total
narrower_none test wider narrow [] e = refl
narrower_none test wider narrow ((k, v) ∷ m) e =
    ground (arith, narrow v, narrower_none test wider narrow m)

pub observed_none-Idle : (s : AuditReplay) → observed_drain s 0 0 ≡ no_obligations → Idle s
unfolding observed_drain active_work
observed_none-Idle s zero =
    let (holders, _) = unresolved_holders-none s in
    let (backings, views, peers) = holders (ground arith) in
    let (works, _) = count_none (λ (w : Work). not w.drained) s.works in
    record { backings = backings; views = views; works = works (ground arith); peers = peers }

Idle-observed_none : (s : AuditReplay) → Idle s → observed_drain s 0 0 ≡ no_obligations
unfolding observed_drain active_work
Idle-observed_none s idle =
    let (_, holders) = unresolved_holders-none s in
    ground (
      arith,
      holders (idle.backings, idle.views, idle.peers),
      narrower_none (λ (b : Backing). same_state b.state BackingState.provisional)
          (λ b. not (is_closed b.state)) (λ b e. ground arith) s.backings idle.backings,
      narrower_none (λ (b : Backing). not (is_closed b.state)) (λ b. not (is_closed b.state))
          (λ b e. e) s.backings idle.backings,
      narrower_none (λ (v : View). is_intent v.state) (λ v. not (is_resolved v.state))
          (λ v e. ground arith) s.views idle.views,
      narrower_none (λ (v : View). is_active v.state || is_closing v.state)
          (λ v. not (is_resolved v.state)) (λ v e. ground arith) s.views idle.views,
      narrower_none (λ (w : Work). not w.drained) (λ w. not w.drained) (λ w e. e) s.works
          idle.works,
    )

same_snapshot_iff : (a b : DrainSnapshot) → (same_snapshot a b ≡ true) ↔ (a ≡ b)
unfolding same_snapshot
same_snapshot_iff a b = (λ e. ground arith, λ e. ground (arith, e))

same_domain_refl : (d : Domain) → same_domain d d ≡ true
unfolding same_domain
same_domain_refl d = ground (
  arith,
  bytes_beq_refl d.host,
  bytes_beq_refl d.boot,
  bytes_beq_refl d.domain,
  bytes_beq_refl d.broker,
)

pub clean_checkpoint_iff :
    (s : AuditReplay) (snapshot : DrainSnapshot)
    → (clean_checkpoint s snapshot ≡ ok (record s { checkpointed = true })) ↔ (
        (s.drained ≡ true)
        × (is_snapshot snapshot s.drained_snapshot ≡ true)
        × (snapshot ≡ no_obligations)
        × Idle s)
unfolding clean_checkpoint
clean_checkpoint_iff s snapshot =
    let (sound, _) = same_snapshot_iff snapshot (observed_drain s 0 0) in
    (
      λ e. (ground arith, ground arith, ground arith, observed_none-Idle s (ground (arith, sound))),
      λ (drained, kept, zero, idle).
          let (_, complete) = same_snapshot_iff no_obligations (observed_drain s 0 0) in
          ground (arith, drained, kept, zero, Idle-observed_none s idle, complete),
    )

-- An event of the state's domain, at its epoch.
abbrev pub event_now : AuditReplay → EventKind → Event
event_now s kind = record { domain = s.domain; epoch = s.epoch; kind = kind }

abbrev pub after_drain : AuditReplay → AuditReplay
after_drain s = record s { drained = true; drained_snapshot = some no_obligations }

Idle-after_drain : (s : AuditReplay) → Idle s → Idle (after_drain s)
Idle-after_drain s idle = record {
  backings = idle.backings;
  views = idle.views;
  works = idle.works;
  peers = idle.peers;
}

drain_accepted :
    (seals : ℕ) (s : AuditReplay)
    → Idle s
    → s.drained ≡ false
    → s.checkpointed ≡ false
    → apply seals s (event_now s (EventKind.broker_drained no_obligations)) ≡ ok (after_drain s)
unfolding apply apply_kind broker_drained
drain_accepted seals s idle working unfinished =
    let (_, complete) = same_snapshot_iff no_obligations (observed_drain s 0 0) in
    ground
      (arith, working, unfinished, same_domain_refl s.domain, Idle-observed_none s idle, complete)

checkpoint_accepted :
    (seals : ℕ) (s : AuditReplay)
    → Idle s
    → s.checkpointed ≡ false
    → apply seals (after_drain s) (event_now s (EventKind.clean_checkpoint no_obligations))
      ≡ ok (record (after_drain s) { checkpointed = true })
unfolding apply apply_kind
checkpoint_accepted seals s idle unfinished =
    let (_, accepted) = clean_checkpoint_iff (after_drain s) no_obligations in
    rw (accepted (refl, is_same, refl, Idle-after_drain s idle))
      (ground (arith, unfinished, same_domain_refl s.domain))
  where
    is_same : is_snapshot no_obligations (some no_obligations) ≡ true
    is_same = let (_, complete) = same_snapshot_iff no_obligations no_obligations in complete refl

-- A state with no obligations, that has not drained, takes a drain and then a clean checkpoint in its domain at
-- its epoch.
pub replay-completes :
    (seals : ℕ) (s : AuditReplay)
    → Idle s
    → s.drained ≡ false
    → s.checkpointed ≡ false
    → replay seals s (
        event_now s (EventKind.broker_drained no_obligations)
        ∷ event_now s (EventKind.clean_checkpoint no_obligations)
        ∷ [])
      ≡ ok (record (after_drain s) { checkpointed = true })
unfolding replay
replay-completes seals s idle working unfinished =
    rw (drain_accepted seals s idle working unfinished, checkpoint_accepted seals s idle unfinished)
      refl

-- Nothing is held where a clean checkpoint is accepted.
pub clean_checkpoint-Idle :
    (s t : AuditReplay) (snapshot : DrainSnapshot) → clean_checkpoint s snapshot ≡ ok t → Idle s
unfolding clean_checkpoint
clean_checkpoint-Idle s t snapshot accepted =
    let (sound, _) = same_snapshot_iff snapshot (observed_drain s 0 0) in
    observed_none-Idle s (ground (arith, accepted, sound))
