-- ===== src/Channel/Stats.antt =====
-- `TransferChannelManager::stats` of crates/uf-daemon/src/transfer_channel.rs. The reported waiting
-- time, which is floating-point, is left out.
use uflow.Prelude.{
  ℕ, ◌+◌, ◌≤◌, ◌<◌, ◌≡◌, refl, List, [], ◌∷◌, Bool, true, false, arith, length, u64_mod,
  if◌then◌else◌,
}
use uflow.Channel.State.{
  TransferDirection, h2d, d2h, TransferLane, ManagerState, wrapping_add, footprint_bytes,
  pinned_total_bytes, Env, chunk_bytes_for, chunk_count, max_lanes_for, idle_ttl_ms,
}
use uflow.Channel.Reap.{reap_expired_lanes}
use uflow.Channel.Lanes.{all_bytes, lanes_bytes-eq-all}

pub record TransferChannelStats : Type 0 where
  pub pinned_total_bytes : ℕ
  pub pinned_used_bytes : ℕ
  pub pinned_idle_bytes : ℕ
  pub h2d_lane_count : ℕ
  pub d2h_lane_count : ℕ
  pub h2d_busy_lanes : ℕ
  pub d2h_busy_lanes : ℕ
  pub lane_wait_count : ℕ
  pub chunk_bytes_h2d : ℕ
  pub chunk_bytes_d2h : ℕ
  pub chunk_count : ℕ
  pub total_acquires : ℕ
  pub h2d_max_lanes : ℕ
  pub d2h_max_lanes : ℕ
  pub idle_ttl_ms : ℕ
  pub idle_reaped_lanes : ℕ
  pub idle_reaped_bytes : ℕ

abbrev add_busy : Bool → ℕ → ℕ
add_busy busy n = if busy then n + 1 else n

abbrev count_in_direction : TransferDirection → Bool → TransferChannelStats → TransferChannelStats
count_in_direction h2d busy out = record out {
  h2d_lane_count = out.h2d_lane_count + 1;
  h2d_busy_lanes = add_busy busy out.h2d_busy_lanes;
}
count_in_direction d2h busy out = record out {
  d2h_lane_count = out.d2h_lane_count + 1;
  d2h_busy_lanes = add_busy busy out.d2h_busy_lanes;
}

abbrev count_bytes : TransferLane → TransferChannelStats → TransferChannelStats
count_bytes lane out =
    if lane.busy
    then record out {
      pinned_used_bytes = wrapping_add out.pinned_used_bytes (footprint_bytes lane);
    }
    else record out {
      pinned_idle_bytes = wrapping_add out.pinned_idle_bytes (footprint_bytes lane);
    }

-- The loop over the lanes.
unfoldable pub tally : List TransferLane → TransferChannelStats → TransferChannelStats
tally [] out = out
tally (lane ∷ others) out =
    tally others (count_bytes lane (count_in_direction lane.direction lane.busy out))

-- The report before the loop, of the state without its expired lanes.
unfoldable pub empty_stats : Env → ManagerState → TransferChannelStats
empty_stats env s = record {
  pinned_total_bytes = pinned_total_bytes s;
  pinned_used_bytes = 0;
  pinned_idle_bytes = 0;
  h2d_lane_count = 0;
  d2h_lane_count = 0;
  h2d_busy_lanes = 0;
  d2h_busy_lanes = 0;
  lane_wait_count = s.lane_wait_count;
  chunk_bytes_h2d = chunk_bytes_for env h2d;
  chunk_bytes_d2h = chunk_bytes_for env d2h;
  chunk_count = chunk_count env;
  total_acquires = s.total_acquires;
  h2d_max_lanes = max_lanes_for env h2d;
  d2h_max_lanes = max_lanes_for env d2h;
  idle_ttl_ms = idle_ttl_ms env;
  idle_reaped_lanes = s.idle_reaped_lanes;
  idle_reaped_bytes = s.idle_reaped_bytes;
}

-- `stats`, with the state that it leaves.
unfoldable pub stats : Env → ℕ → ManagerState → TransferChannelStats × ManagerState
stats env now s =
    let t : ManagerState = reap_expired_lanes env now s in (tally t.lanes (empty_stats env t), t)

-- The counts of a report fit each other, for the lanes that are counted so far and those to come.
abbrev Accounts : TransferChannelStats → ℕ → ℕ → Type 0
Accounts out bytes lanes =
    (out.pinned_used_bytes + out.pinned_idle_bytes ≡ bytes)
    × (out.h2d_lane_count + out.d2h_lane_count ≡ lanes)
    × (out.h2d_busy_lanes ≤ out.h2d_lane_count)
    × (out.d2h_busy_lanes ≤ out.d2h_lane_count)

Accounts-count :
    (d : TransferDirection) (busy : Bool) (lane : TransferLane) (out : TransferChannelStats)
    (bytes lanes : ℕ)
    → lane.busy ≡ busy
    → lane.direction ≡ d
    → Accounts out bytes lanes
    → bytes + footprint_bytes lane < u64_mod
    → Accounts
        (count_bytes lane (count_in_direction d lane.busy out))
        (bytes + footprint_bytes lane)
        (lanes + 1)
Accounts-count h2d true lane out bytes lanes b is (sum, count, up, down) small =
    rw b (omega arith, omega arith, omega arith, omega arith)
Accounts-count h2d false lane out bytes lanes b is (sum, count, up, down) small =
    rw b (omega arith, omega arith, omega arith, omega arith)
Accounts-count d2h true lane out bytes lanes b is (sum, count, up, down) small =
    rw b (omega arith, omega arith, omega arith, omega arith)
Accounts-count d2h false lane out bytes lanes b is (sum, count, up, down) small =
    rw b (omega arith, omega arith, omega arith, omega arith)

Accounts-tally :
    (lanes : List TransferLane) (out : TransferChannelStats) (bytes n : ℕ)
    → Accounts out bytes n
    → bytes + all_bytes lanes < u64_mod
    → Accounts (tally lanes out) (bytes + all_bytes lanes) (n + length lanes)
unfolding tally all_bytes
Accounts-tally [] out bytes n (sum, count, up, down) small = (omega arith, omega arith, up, down)
Accounts-tally (lane ∷ others) out bytes n a small =
    let next = Accounts-count lane.direction lane.busy lane out bytes n refl refl a (omega arith) in
    let (sum, count, up, down) = Accounts-tally others _ _ _ next (omega arith) in
    (omega (arith, sum), omega (arith, count), up, down)

total-tally :
    (lanes : List TransferLane) (out : TransferChannelStats)
    → (tally lanes out).pinned_total_bytes ≡ out.pinned_total_bytes
unfolding tally
total-tally [] out = refl
total-tally (lane ∷ others) out = go lane.direction lane.busy (total-tally others)
  where
    go :
        (d : TransferDirection) (busy : Bool)
        → ((x : TransferChannelStats) → (tally others x).pinned_total_bytes ≡ x.pinned_total_bytes)
        → (tally others (
            count_bytes
              (record lane { busy = busy })
              (count_in_direction d busy out))).pinned_total_bytes
          ≡ out.pinned_total_bytes
    go h2d true all = all _
    go h2d false all = all _
    go d2h true all = all _
    go d2h false all = all _

-- In a report the used and the idle bytes make the total, the lanes of the two directions make all
-- lanes, and no direction has more busy lanes than lanes, if the pool holds fewer than 2 ^ 64 bytes.
pub stats_lem :
    (env : Env) (now : ℕ) (s : ManagerState)
    → all_bytes (stats env now s).1.lanes < u64_mod
    → ((stats env now s).0.pinned_used_bytes + (stats env now s).0.pinned_idle_bytes
        ≡ (stats env now s).0.pinned_total_bytes)
      × ((stats env now s).0.h2d_lane_count + (stats env now s).0.d2h_lane_count
          ≡ length (stats env now s).1.lanes)
      × ((stats env now s).0.h2d_busy_lanes ≤ (stats env now s).0.h2d_lane_count)
      × ((stats env now s).0.d2h_busy_lanes ≤ (stats env now s).0.d2h_lane_count)
unfolding stats empty_stats
stats_lem env now s small =
    let t : ManagerState = reap_expired_lanes env now s in
    let (sum, count, up, down) =
      Accounts-tally t.lanes (empty_stats env t) 0 0 (refl, refl, omega arith, omega arith)
        (omega arith) in
    (
      omega (arith, sum, total-tally t.lanes (empty_stats env t), lanes_bytes-eq-all t.lanes),
      omega (arith, count),
      up,
      down,
    )
