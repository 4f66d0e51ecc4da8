-- ===== src/Channel/Reap.antt =====
-- How idle lanes are closed: `reap_*` of crates/uf-daemon/src/transfer_channel.rs.
use uflow.Prelude.{
  ℕ, ◌-◌, List, [], ◌∷◌, ◌++◌, Bool, false, ◌&&◌, not, Option, none, some, leb, if◌then◌else◌,
  wrapping_inc,
}
use uflow.Channel.State.{
  TransferDirection, same_direction, TransferLane, ManagerState, wrapping_add, footprint_bytes, Env,
  idle_ttl,
}

-- A place in the list of lanes: `state.lanes[index]` with the lanes before and after it.
pub record Place : Type 0 where
  pub before : List TransferLane
  pub lane : TransferLane
  pub after : List TransferLane

abbrev pub after_lane : TransferLane → Option Place → Option Place
after_lane first none = none
after_lane first (some place) = some (record place { before = first ∷ place.before })

-- `state.lanes.iter().position(test)`
unfoldable pub position : (TransferLane → Bool) → List TransferLane → Option Place
position test [] = none
position test (first ∷ others) =
    let later = after_lane first (position test others) in
    if test first then some (record { before = []; lane = first; after = others }) else later

-- The counters after a lane has been closed.
abbrev pub count_reaped : TransferLane → ManagerState → ManagerState
count_reaped lane s = record s {
  idle_reaped_lanes = wrapping_inc s.idle_reaped_lanes;
  idle_reaped_bytes = wrapping_add s.idle_reaped_bytes (footprint_bytes lane);
}

-- `reap_lane_at`
abbrev pub reap_lane_at : ManagerState → Place → ManagerState
reap_lane_at s place = record (count_reaped place.lane s) { lanes = place.before ++ place.after }

abbrev pub idle_for : ℕ → ℕ → Option ℕ → Bool
idle_for ttl now none = false
idle_for ttl now (some since) = leb ttl (now - since)

-- The test of `reap_expired_lanes`.
unfoldable pub is_expired : ℕ → ℕ → TransferLane → Bool
is_expired ttl now lane = not lane.busy && idle_for ttl now lane.idle_since

-- The loop of `reap_expired_lanes` over the lanes that are left to look at.
unfoldable pub reap_expired_from : ℕ → ℕ → List TransferLane → ManagerState → ManagerState
reap_expired_from ttl now [] s = record s { lanes = [] }
reap_expired_from ttl now (lane ∷ others) s =
    let t = reap_expired_from ttl now others s in
    if is_expired ttl now lane then count_reaped lane t else record t { lanes = lane ∷ t.lanes }

abbrev pub reap_with : Option ℕ → ℕ → ManagerState → ManagerState
reap_with none now s = s
reap_with (some ttl) now s = reap_expired_from ttl now s.lanes s

-- `reap_expired_lanes`
unfoldable pub reap_expired_lanes : Env → ℕ → ManagerState → ManagerState
reap_expired_lanes env now s = reap_with (idle_ttl env) now s

abbrev pub wanted : Option TransferDirection → TransferLane → Bool
wanted none lane = not lane.busy
wanted (some d) lane = not lane.busy && same_direction lane.direction d

abbrev pub reap_place : ManagerState → Option Place → Option ManagerState
reap_place s none = none
reap_place s (some place) = some (reap_lane_at s place)

-- `reap_one_idle_lane`; `none` where the code returns `false`.
unfoldable pub reap_one_idle_lane : ManagerState → Option TransferDirection → Option ManagerState
reap_one_idle_lane s d = reap_place s (position (wanted d) s.lanes)
