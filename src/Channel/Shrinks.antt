-- ===== src/Channel/Shrinks.antt =====
-- What closing idle lanes leaves, for the `reap_*` functions of
-- crates/uf-daemon/src/transfer_channel.rs.
use uflow.Prelude.{
  ℕ, ◌+◌, ◌≤◌, ◌<◌, ◌≡◌, refl, ap, ◌∙◌, List, [], ◌∷◌, ◌++◌, true, false, arith, length,
  length-append, Option, none, some, inl, inr, Bool-cases, Option-cases,
}
use uflow.Channel.State.{
  TransferDirection, TransferLane, ManagerState, count_direction, Env, idle_ttl,
}
use uflow.Channel.Reap.{
  position, reap_expired_from, is_expired, wanted, reap_one_idle_lane, reap_expired_lanes,
}
use uflow.Channel.Lanes.{
  is_leased, any_busy, all_bytes, IsOrdered, IsOrdered-lower, position-eq-some,
}

-- `lanes` are those of `from`, less idle ones.
pub record Shrinks (from lanes : List TransferLane) : Type 0 where
  pub kept_leases : (id : ℕ) → is_leased id lanes ≡ is_leased id from
  pub kept_order : (low high : ℕ) → IsOrdered low from high → IsOrdered low lanes high
  pub fewer : (d : TransferDirection) → count_direction d lanes ≤ count_direction d from
  pub smaller : all_bytes lanes ≤ all_bytes from
  pub shorter : length lanes ≤ length from

pub Shrinks-refl : (lanes : List TransferLane) → Shrinks lanes lanes
Shrinks-refl lanes = record {
  kept_leases = λ id. refl;
  kept_order = λ low high o. o;
  fewer = λ d. omega arith;
  smaller = omega arith;
  shorter = omega arith;
}

pub Shrinks-trans : {a b c : List TransferLane} → Shrinks a b → Shrinks b c → Shrinks a c
Shrinks-trans p q = record {
  kept_leases = λ id. q.kept_leases id ∙ p.kept_leases id;
  kept_order = λ low high o. q.kept_order low high (p.kept_order low high o);
  fewer = λ d. omega (arith, p.fewer d, q.fewer d);
  smaller = omega (arith, p.smaller, q.smaller);
  shorter = omega (arith, p.shorter, q.shorter);
}

keep_first :
    (lane : TransferLane) (xs ys : List TransferLane)
    → Shrinks xs ys
    → Shrinks (lane ∷ xs) (lane ∷ ys)
unfolding is_leased IsOrdered count_direction all_bytes
keep_first lane xs ys p = record {
  kept_leases = λ id. ground (arith, p.kept_leases id);
  kept_order = λ low high o. (o.0, p.kept_order (lane.lane_id + 1) high o.1);
  fewer = λ d. ground (arith, p.fewer d);
  smaller = omega (arith, p.smaller);
  shorter = omega (arith, p.shorter);
}

drop_first :
    (lane : TransferLane) (xs ys : List TransferLane)
    → lane.busy ≡ false
    → Shrinks xs ys
    → Shrinks (lane ∷ xs) ys
unfolding is_leased IsOrdered count_direction all_bytes
drop_first lane xs ys idle p = record {
  kept_leases = λ id. ground (arith, p.kept_leases id, idle);
  kept_order = λ low high o.
      IsOrdered-lower (lane.lane_id + 1) low ys high (omega (arith, o.0))
        (p.kept_order (lane.lane_id + 1) high o.1);
  fewer = λ d. ground (arith, p.fewer d);
  smaller = omega (arith, p.smaller);
  shorter = omega (arith, p.shorter);
}

-- Closing one idle lane.
pub Shrinks-remove :
    (before after : List TransferLane) (lane : TransferLane)
    → lane.busy ≡ false
    → Shrinks (before ++ (lane ∷ after)) (before ++ after)
Shrinks-remove [] after lane idle = drop_first lane after after idle (Shrinks-refl after)
Shrinks-remove (x ∷ xs) after lane idle =
    keep_first x (xs ++ (lane ∷ after)) (xs ++ after) (Shrinks-remove xs after lane idle)

pub Shrinks-expired :
    (ttl now : ℕ) (lanes : List TransferLane) (s : ManagerState)
    → Shrinks lanes (reap_expired_from ttl now lanes s).lanes
unfolding reap_expired_from is_expired
Shrinks-expired ttl now [] s = Shrinks-refl []
Shrinks-expired ttl now (lane ∷ others) s =
    let rest = Shrinks-expired ttl now others s in
    elim (Bool-cases (is_expired ttl now lane)) [
      | inl old ↦ rw old (drop_first lane others _ (ground arith) rest)
      | inr young ↦ rw young (keep_first lane others _ rest)
    ]

next-expired :
    (ttl now : ℕ) (lanes : List TransferLane) (s : ManagerState)
    → (reap_expired_from ttl now lanes s).next_lane_id ≡ s.next_lane_id
unfolding reap_expired_from
next-expired ttl now [] s = refl
next-expired ttl now (lane ∷ others) s = ground (arith, next-expired ttl now others s)

-- `reap_expired_lanes` closes idle lanes only, and hands out no id.
pub reap_expired-Shrinks :
    (env : Env) (now : ℕ) (s : ManagerState)
    → Shrinks s.lanes (reap_expired_lanes env now s).lanes
      × ((reap_expired_lanes env now s).next_lane_id ≡ s.next_lane_id)
unfolding reap_expired_lanes
reap_expired-Shrinks env now s = elim (Option-cases (idle_ttl env)) [
  | inl never ↦ rw never (Shrinks-refl s.lanes, refl)
  | inr (ttl, is) ↦ rw is (Shrinks-expired ttl now s.lanes s, next-expired ttl now s.lanes s)
]

-- `reap_one_idle_lane` closes an idle lane, and the list gets shorter.
pub reap_one-Shrinks :
    (s t : ManagerState) (d : Option TransferDirection)
    → reap_one_idle_lane s d ≡ some t
    → Shrinks s.lanes t.lanes
      × (t.next_lane_id ≡ s.next_lane_id)
      × (length t.lanes < length s.lanes)
unfolding reap_one_idle_lane
reap_one-Shrinks s t d e = elim (Option-cases (position (wanted d) s.lanes)) [
  | inl gone ↦ absurd (ground (arith, gone))
  | inr (place, there) ↦
      let (is, wants) = position-eq-some (wanted d) s.lanes place there in
      let now_t : t.lanes ≡ place.before ++ place.after = ground (arith, there) in
      let idle : place.lane.busy ≡ false = not_busy d place.lane wants in
      (
        rw (is, now_t) (Shrinks-remove place.before place.after place.lane idle),
        ground (arith, there),
        omega (
          arith,
          ap length is,
          ap length now_t,
          length-append place.before (place.lane ∷ place.after),
          length-append place.before place.after,
        ),
      )
]
  where
    not_busy :
        (d : Option TransferDirection) (lane : TransferLane)
        → wanted d lane ≡ true
        → lane.busy ≡ false
    not_busy none lane w = ground arith
    not_busy (some x) lane w = ground arith

-- Where it finds no idle lane of a direction, the lanes of that direction are all held.
pub any_busy_of_direction :
    (s : ManagerState) (d : TransferDirection)
    → reap_one_idle_lane s (some d) ≡ none
    → 0 < count_direction d s.lanes
    → any_busy s.lanes ≡ true
unfolding reap_one_idle_lane position count_direction any_busy
any_busy_of_direction s d e some_lane = elim (Option-cases (position (wanted (some d)) s.lanes)) [
  | inl gone ↦ all_held s.lanes gone some_lane
  | inr (place, there) ↦ absurd (ground (arith, there))
]
  where
    all_held :
        (lanes : List TransferLane)
        → position (wanted (some d)) lanes ≡ none
        → 0 < count_direction d lanes
        → any_busy lanes ≡ true
    all_held [] p n = absurd (omega arith)
    all_held (lane ∷ others) p n = elim (Option-cases (position (wanted (some d)) others)) [
      | inl gone ↦ ground (arith, gone, all_held others)
      | inr (place, there) ↦ absurd (ground (arith, there))
    ]

-- Where it finds no idle lane at all, every lane is held.
pub any_busy_of_none :
    (s : ManagerState)
    → reap_one_idle_lane s none ≡ none
    → 0 < length s.lanes
    → any_busy s.lanes ≡ true
unfolding reap_one_idle_lane position any_busy
any_busy_of_none s e some_lane = elim (Option-cases (position (wanted none) s.lanes)) [
  | inl gone ↦ held s.lanes gone some_lane
  | inr (place, there) ↦ absurd (ground (arith, there))
]
  where
    held :
        (lanes : List TransferLane)
        → position (wanted none) lanes ≡ none
        → 0 < length lanes
        → any_busy lanes ≡ true
    held [] p n = absurd (omega arith)
    held (lane ∷ others) p n = elim (Option-cases (position (wanted none) others)) [
      | inl gone ↦ ground (arith, gone)
      | inr (place, there) ↦ absurd (ground (arith, there))
    ]
