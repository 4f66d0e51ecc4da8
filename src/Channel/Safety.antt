-- ===== src/Channel/Safety.antt =====
-- The state of the pool of crates/uf-daemon/src/transfer_channel.rs between calls, and the branches of
-- `acquire` that hand out a lane.
use uflow.Prelude.{
  ℕ, ◌⊎◌, ◌+◌, ◌*◌, ◌≤◌, ◌<◌, ◌≡◌, refl, sym, ap, ◌∙◌, List, [], ◌∷◌, ◌++◌, Bool, true, false,
  arith, length, inl, inr, u64_mod, Result-cases, if◌then◌else◌, wrapping_inc,
}
use uflow.Channel.State.{
  TransferDirection, TransferLane, ManagerState, count_direction, Env, chunk_count,
  max_pinned_bytes, max_lanes_for,
}
use uflow.Channel.Reap.{Place}
use uflow.Channel.Acquire.{
  Inputs, Outcome, leased, refused, waits, again, lane_lease_info, reuse, open_lane, create,
  lease_again,
}
use uflow.Channel.Lanes.{
  is_leased, any_busy, all_bytes, IsOrdered, IsOrdered-snoc, IsOrdered-replace,
  count_direction-append, all_bytes-append,
}
use uflow.Channel.Shrinks.{Shrinks}
use uflow.Channel.Leases.{
  Leases, Leases-reuse, Leases-snoc, count_direction-lease_again, all_bytes-lease_again,
  same_direction_sound, IsExact, open_lane_effect,
}

-- The pool is as it should be: the ids grow, and the limits that are set are kept.
pub record Good (env : Env) (s : ManagerState) : Type 0 where
  pub ordered : IsOrdered 0 s.lanes s.next_lane_id
  pub in_budget : (max_pinned_bytes env ≡ 0) ⊎ (all_bytes s.lanes ≤ max_pinned_bytes env)
  pub in_lanes :
      (d : TransferDirection)
      → (max_lanes_for env d ≡ 0) ⊎ (count_direction d s.lanes ≤ max_lanes_for env d)

-- No lane has changed hands.
abbrev pub Same : ManagerState → ManagerState → Type 0
Same s t = (id : ℕ) → is_leased id t.lanes ≡ is_leased id s.lanes

-- What a pass guarantees, by how it ends.
unfoldable pub AfterPass : Env → ManagerState → Outcome → Type 0
AfterPass env s (leased info t) = Good env t × Leases info.lane_id s.lanes t.lanes
AfterPass env s (refused detail t) = Good env t × Same s t
AfterPass env s (waits t) = Good env t × Same s t × (any_busy t.lanes ≡ true)
AfterPass env s (again t) =
    Good env t × Same s t × (t.next_lane_id ≡ s.next_lane_id) × (length t.lanes < length s.lanes)

pub if_either :
    {A : Type 0} (P : A → Type 0) (test : Bool) (a b : A)
    → (test ≡ true → P a)
    → (test ≡ false → P b)
    → P (if test then a else b)
if_either P true a b yes_case no_case = yes_case refl
if_either P false a b yes_case no_case = no_case refl

pub Good-Shrinks :
    (env : Env) (s t : ManagerState)
    → Good env s
    → Shrinks s.lanes t.lanes
    → t.next_lane_id ≡ s.next_lane_id
    → Good env t
Good-Shrinks env s t g p is = record {
  ordered = rw is (p.kept_order 0 s.next_lane_id g.ordered);
  in_budget = ground (arith, g.in_budget, p.smaller);
  in_lanes = λ d. ground (arith, g.in_lanes d, p.fewer d);
}

-- From a pool that is the old one less idle lanes.
pub Shrinks-AfterPass :
    (env : Env) (s t : ManagerState) (o : Outcome)
    → Shrinks s.lanes t.lanes
    → t.next_lane_id ≡ s.next_lane_id
    → AfterPass env t o
    → AfterPass env s o
unfolding AfterPass
Shrinks-AfterPass env s t (leased info u) p is (g, l) = (
  g,
  record {
    was_free = sym (p.kept_leases info.lane_id) ∙ l.was_free;
    is_held = l.is_held;
    others = λ j other. l.others j other ∙ p.kept_leases j;
  },
)
Shrinks-AfterPass env s t (refused detail u) p is (g, same) = (g, λ j. same j ∙ p.kept_leases j)
Shrinks-AfterPass env s t (waits u) p is (g, same, held) = (g, λ j. same j ∙ p.kept_leases j, held)
Shrinks-AfterPass env s t (again u) p is (g, same, next, less) =
    (g, λ j. same j ∙ p.kept_leases j, next ∙ is, omega (arith, p.shorter, less))

module _ (env : Env) (input : Inputs) (s : ManagerState) (d : TransferDirection) (device : ℕ) where
  pub reuse-AfterPass :
      (place : Place)
      → Good env s
      → s.lanes ≡ place.before ++ (place.lane ∷ place.after)
      → place.lane.busy ≡ false
      → AfterPass env s (reuse input s device place)
  unfolding AfterPass reuse lane_lease_info
  reuse-AfterPass place g is idle = (
    record {
      ordered =
          IsOrdered-replace 0 place.before place.after place.lane new s.next_lane_id refl there;
      in_budget = ground (
        arith,
        g.in_budget,
        all_bytes-lease_again device place.before place.after place.lane,
        ap all_bytes is,
      );
      in_lanes = λ x. ground (
        arith,
        g.in_lanes x,
        count_direction-lease_again x device place.before place.after place.lane,
        ap (count_direction x) is,
      );
    },
    rw is (Leases-reuse 0 s.next_lane_id device place.before place.after place.lane there idle),
  )
    where
      new : TransferLane
      new = lease_again place.lane device

      there : IsOrdered 0 (place.before ++ (place.lane ∷ place.after)) s.next_lane_id
      there = rw (sym is) g.ordered

  pub create-AfterPass :
      (bytes : ℕ)
      → Good env s
      → IsExact input
      → s.next_lane_id + 1 < u64_mod
      → (max_pinned_bytes env ≡ 0)
        ⊎ (all_bytes s.lanes + bytes * chunk_count env ≤ max_pinned_bytes env)
      → bytes * chunk_count env < u64_mod
      → (max_lanes_for env d ≡ 0) ⊎ (count_direction d s.lanes < max_lanes_for env d)
      → AfterPass env s (create env input s d device bytes)
  unfolding AfterPass create lane_lease_info all_bytes count_direction IsOrdered
  create-AfterPass bytes g exact ids room small free =
      elim (Result-cases (open_lane env input s.next_lane_id d device bytes)) [
        | inr (x, bad) ↦ rw bad (
          record {
            ordered = IsOrdered-more s.lanes 0 g.ordered;
            in_budget = g.in_budget;
            in_lanes = g.in_lanes;
          },
          λ j. refl,
        )
        | inl (lane, made) ↦
            let (is, held, towards, size) =
              open_lane_effect env input s.next_lane_id d device bytes lane exact made in
            let counted = λ (x : TransferDirection). count_direction-append x s.lanes (lane ∷ []) in
            rw made (
              record {
                ordered =
                    IsOrdered-snoc 0 s.lanes s.next_lane_id lane _ g.ordered is
                      (omega (arith, ids));
                in_budget = ground (arith, room, size, small, all_bytes-append s.lanes (lane ∷ []));
                in_lanes = λ x.
                    ground
                      (arith, g.in_lanes x, free, counted x, towards, same_direction_sound d x);
              },
              Leases-snoc 0 s.next_lane_id s.lanes lane g.ordered is held,
            )
      ]
    where
      IsOrdered-more :
          (lanes : List TransferLane) (low : ℕ)
          → IsOrdered low lanes s.next_lane_id
          → IsOrdered low lanes (wrapping_inc s.next_lane_id)
      IsOrdered-more [] low o = omega (arith, o, ids)
      IsOrdered-more (x ∷ xs) low o = (o.0, IsOrdered-more xs (x.lane_id + 1) o.1)
