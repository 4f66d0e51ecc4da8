-- ===== src/Recovery/Audit/Budget.antt =====
-- The bytes that crates/uf-daemon/src/ddr_recovery_audit.rs charges, against the limits of its domain.
use uflow.Prelude.{
  ℕ, ◌≤◌, ◌<◌, ◌+◌, ◌≡◌, refl, sym, ◌∙◌, none, some, List, ok, Bool-cases, arith, inl, inr, u64_mod,
  bytes_beq, bytes_beq_iff, bytes_beq_refl, nat_key,
}
use uflow.Prelude.Text.{Str}
use uflow.Prelude.Maps.{Map, get, insert}
use uflow.Recovery.Audit.Types.{Domain, BackingIdentity, Event}
use uflow.Recovery.Audit.State.{
  AuditReplay, Backing, BackingState, new, total, charge, charge_of, charged_bytes, owner_charged,
}
use uflow.Recovery.Audit.Apply.{replay}
use uflow.Recovery.Audit.Moves.{
  Move, new_backing, broker_known, backing_added, backing_moved, backing_closed, view_added,
  view_moved, work_added, work_moved, peer_seen, drain_seen, checkpoint_taken,
}
use uflow.Recovery.Audit.Totals.{total-insert-new, total-insert-old}
use uflow.Recovery.Audit.Runs.{replay_keeps, new-Empty}

-- What the retained backings occupy is within the limits, in all and for each owner.
pub record WithinLimits (m : Map ℕ Backing) (d : Domain) : Type 0 where
  pub in_all : total charge m ≤ d.total_limit
  pub each_owner : (owner : Str) → total (charge_of owner) m ≤ d.owner_limit

-- A write that adds to no charge.
no_more_charged :
    (m : Map ℕ Backing) (d : Domain) (id : ℕ) (old now : Backing)
    → get id m ≡ some old
    → charge now ≤ charge old
    → ((owner : Str) → charge_of owner now ≤ charge_of owner old)
    → WithinLimits m d
    → WithinLimits (insert id now m) d
no_more_charged m d id old now there less fewer within = record {
  in_all = ground (arith, there, less, total-insert-old charge id now m there, within.in_all);
  each_owner = λ owner. ground (
    arith,
    fewer owner,
    total-insert-old (charge_of owner) id now m there,
    within.each_owner owner,
  );
}

-- A new backing within what the limits leave.
one_more_charged :
    (m : Map ℕ Backing) (d : Domain) (i : BackingIdentity)
    → get i.object_id m ≡ none
    → total charge m + i.bytes ≤ d.total_limit
    → total (charge_of i.owner_incarnation) m + i.bytes ≤ d.owner_limit
    → WithinLimits m d
    → WithinLimits (insert i.object_id (new_backing i) m) d
one_more_charged m d i free in_all of_owner within = record {
  in_all = ground (arith, total-insert-new charge i.object_id (new_backing i) m free);
  each_owner = λ owner. elim (Bool-cases (bytes_beq i.owner_incarnation owner)) [
    | inl same ↦
        let (sound, _) = bytes_beq_iff i.owner_incarnation owner in
        rw (sym (sound same)) (
          ground (
            arith,
            total-insert-new (charge_of i.owner_incarnation) i.object_id (new_backing i) m free,
            bytes_beq_refl i.owner_incarnation,
          ))
    | inr other ↦ ground (
      arith,
      other,
      total-insert-new (charge_of owner) i.object_id (new_backing i) m free,
      within.each_owner owner,
    )
  ];
}

-- The domain is `d`, and its limits, which are numbers of 64 bits, hold.
pub record InBudget (d : Domain) (s : AuditReplay) : Type 0 where
  pub in_domain : s.domain ≡ d
  pub limits_fit : d.total_limit < u64_mod
  pub owner_fits : d.owner_limit ≤ d.total_limit
  pub within : WithinLimits s.backings d

charges_exact :
    (d : Domain) (s : AuditReplay)
    → InBudget d s
    → (charged_bytes s ≡ total charge s.backings)
      × ((owner : Str) → owner_charged s owner ≡ total (charge_of owner) s.backings)
unfolding charged_bytes owner_charged
charges_exact d s fits = (
  ground (arith, fits.limits_fit, fits.within.in_all),
  λ owner. ground (arith, fits.limits_fit, fits.owner_fits, fits.within.each_owner owner),
)

module _ (d : Domain) (s t : AuditReplay) where
  refits :
      {m : Map ℕ Backing}
      → t.domain ≡ s.domain
      → t.backings ≡ m
      → WithinLimits m d
      → InBudget d s
      → InBudget d t
  refits {m} same there within fits = record {
    in_domain = same ∙ fits.in_domain;
    limits_fit = fits.limits_fit;
    owner_fits = fits.owner_fits;
    within = rw there within;
  }

  pub step-InBudget : Move s t → InBudget d s → InBudget d t
  step-InBudget (backing_added i free total_fits owner_fits is) fits =
      let (all, each) = charges_exact d s fits in
      refits (ground (arith, is)) (ground (arith, is))
        (one_more_charged s.backings d i free (ground (arith, all, total_fits, fits.in_domain))
          (ground (arith, each i.owner_incarnation, owner_fits, fits.in_domain)) fits.within)
        fits
  step-InBudget (backing_moved id old now there same becomes stays is) fits =
      refits (ground (arith, is)) (ground (arith, is))
        (no_more_charged s.backings d id old now there (ground arith) (λ owner. ground arith)
          fits.within)
        fits
  step-InBudget (backing_closed id old there in_state views works is) fits =
      refits (ground (arith, is)) (ground (arith, is))
        (no_more_charged s.backings d id old (record old { state = BackingState.closed }) there
          (ground arith) (λ owner. ground arith) fits.within)
        fits
  step-InBudget (broker_known birth is) fits =
      refits (ground (arith, is)) (ground (arith, is)) fits.within fits
  step-InBudget (view_added i b free source inside is) fits =
      refits (ground (arith, is)) (ground (arith, is)) fits.within fits
  step-InBudget (view_moved id old now there same turns is) fits =
      refits (ground (arith, is)) (ground (arith, is)) fits.within fits
  step-InBudget (work_added i source target free from into first second is) fits =
      refits (ground (arith, is)) (ground (arith, is)) fits.within fits
  step-InBudget (work_moved id old now there same drains is) fits =
      refits (ground (arith, is)) (ground (arith, is)) fits.within fits
  step-InBudget (peer_seen birth is) fits =
      refits (ground (arith, is)) (ground (arith, is)) fits.within fits
  step-InBudget (drain_seen snapshot is) fits =
      refits (ground (arith, is)) (ground (arith, is)) fits.within fits
  step-InBudget (checkpoint_taken done zero is) fits =
      refits (ground (arith, is)) (ground (arith, is)) fits.within fits

new-InBudget :
    (d : Domain) (s : AuditReplay) → d.total_limit < u64_mod → new d ≡ ok s → InBudget d s
unfolding new total
new-InBudget d s narrow made =
    let (same, bare, _, _, _) = new-Empty d s made in
    record {
      in_domain = same;
      limits_fit = narrow;
      owner_fits = ground (arith, made);
      within = rw bare (record { in_all = ground arith; each_owner = λ owner. ground arith });
    }

-- In every replay from a new state, for a total limit of 64 bits, what the backings occupy that are not closed
-- is within the total limit, what those of one owner occupy within the owner's limit, and the two sums that
-- `charged_bytes` and `owner_charged` compute do not wrap.
pub replay-InBudget :
    (seals : ℕ) (d : Domain) (s t : AuditReplay) (es : List Event)
    → d.total_limit < u64_mod
    → new d ≡ ok s
    → replay seals s es ≡ ok t
    → (total charge t.backings ≤ d.total_limit)
      × ((owner : Str) → total (charge_of owner) t.backings ≤ d.owner_limit)
      × (charged_bytes t ≡ total charge t.backings)
      × ((owner : Str) → owner_charged t owner ≡ total (charge_of owner) t.backings)
replay-InBudget seals d s t es narrow made run =
    let fits =
      replay_keeps (λ u. InBudget d u) (λ u v unfinished move p. step-InBudget d u v move p)
        (λ u epoch p. refits d u (record u { epoch = epoch }) refl refl p.within p) seals s t es run
        (new-InBudget d s narrow made) in
    let (all, each) = charges_exact d t fits in
    (fits.within.in_all, fits.within.each_owner, all, each)
