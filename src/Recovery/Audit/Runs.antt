-- ===== src/Recovery/Audit/Runs.antt =====
-- What each step keeps, a replay of crates/uf-daemon/src/ddr_recovery_audit.rs keeps.
use uflow.Prelude.{ℕ, ◌≡◌, false, List, [], ◌∷◌, ok, Result-cases, arith, inl, inr}
use mathlib.Core.Path.{subst}
use uflow.Recovery.Audit.Types.{Domain, Event}
use uflow.Recovery.Audit.State.{AuditReplay, new}
use uflow.Recovery.Audit.Apply.{apply, replay}
use uflow.Recovery.Audit.Moves.{Move}
use uflow.Recovery.Audit.Refines.{apply-Move}

module _ {ℓ} (P : AuditReplay → Type ℓ)
    (step : (s t : AuditReplay) → s.checkpointed ≡ false → Move s t → P s → P t)
    (dated : (s : AuditReplay) (epoch : ℕ) → P s → P (record s { epoch = epoch })) where
  pub apply_keeps : (seals : ℕ) (s t : AuditReplay) (e : Event) → apply seals s e ≡ ok t → P s → P t
  apply_keeps seals s t e accepted p =
      let (u, move, there, _, unfinished, _, _, _) = apply-Move seals s t e accepted in
      rw there (dated u e.epoch (step s u unfinished move p))

  pub replay_keeps :
      (seals : ℕ) (s t : AuditReplay) (es : List Event) → replay seals s es ≡ ok t → P s → P t
  unfolding replay
  replay_keeps seals s t [] done p = subst P (ground (arith, done)) p
  replay_keeps seals s t (e ∷ es) done p = elim (Result-cases (apply seals s e)) [
    | inr (x, bad) ↦ absurd (ground (arith, bad))
    | inl (u, there) ↦
        replay_keeps seals u t es (ground (arith, there)) (apply_keeps seals s u e there p)
  ]

-- A new state holds nothing.
pub new-Empty :
    (d : Domain) (s : AuditReplay)
    → new d ≡ ok s
    → (s.domain ≡ d) × (s.backings ≡ []) × (s.views ≡ []) × (s.works ≡ []) × (s.terminated ≡ [])
unfolding new
new-Empty d s made = (
  ground (arith, made),
  ground (arith, made),
  ground (arith, made),
  ground (arith, made),
  ground (arith, made),
)
