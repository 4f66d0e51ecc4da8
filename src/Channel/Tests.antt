-- ===== src/Channel/Tests.antt =====
-- Runs of the pool of crates/uf-daemon/src/transfer_channel.rs, and its theorems at them.
use uflow.Prelude.{
  ℕ, ◌⊎◌, ◌≡◌, ◌≢◌, ◌≤◌, ◌+◌, refl, List, [], ◌∷◌, true, false, none, some, ok, err, Result, arith,
  length, inl, inr, bytes_beq, if◌then◌else◌,
}
use uflow.Prelude.Text.{Str, text}
use uflow.Channel.State.{
  TransferDirection, h2d, d2h, same_direction, TransferLane, ManagerState, chunks_bytes,
  lanes_bytes, count_direction, Env, env_u64, chunk_count, chunk_bytes_for, max_pinned_bytes,
  max_lanes_for, idle_ttl_ms, idle_ttl,
}
use uflow.Channel.Reap.{
  position, is_expired, reap_expired_from, reap_expired_lanes, reap_one_idle_lane,
}
use uflow.Channel.Acquire.{
  initial, Inputs, LaneLeaseInfo, chunk_views, views_bytes, lane_lease_info, leased, again,
  lane_chunk_bytes, is_reusable, open_chunks, open_lane, create, grow, miss, pass, pass_at, acquire,
}
use uflow.Channel.Lanes.{is_leased, any_busy, all_bytes, IsOrdered}
use uflow.Channel.Leases.{Leases, IsExact}
use uflow.Channel.Reaped.{Balanced, reap_expired_lanes-Balanced, reap_one_idle_lane-Balanced}
use uflow.Channel.WithLane.{Answers, with_lane}
use uflow.Channel.Exclusive.{IsExclusive, with_lane-IsExclusive}
use uflow.Channel.Safety.{Good}
use uflow.Channel.Passes.{Fits}
use uflow.Channel.Guarantees.{acquire_terminates, acquire-Leases, acquire_waits}
use uflow.Channel.Pool.{Event, acquires, releases, looks, Holds, run}
use uflow.Channel.Holders.{run-Holds}
use uflow.Channel.Stats.{stats, stats_lem}

-- One lane to a device, chunks of ten bytes, and at most a hundred bytes pinned.
abbrev limits : Env
limits key =
    if bytes_beq key (text "UF_H2D_MAX_LANES")
    then some 1
    else if bytes_beq key (text "UF_PINNED_CHUNK_BYTES")
    then some 10
    else if bytes_beq key (text "UF_PINNED_MAX_BYTES")
    then some 100
    else none

abbrev acl : Inputs
acl = record {
  now = 0;
  waited = false;
  create_stream = ok 3;
  malloc_pinned_host = λ index bytes. ok (record { ptr = index; bytes = bytes });
  create_event = λ index. ok index;
}

acl-IsExact : IsExact acl
unfolding IsExact
acl-IsExact index bytes chunk e = ground arith

limits-Fits : (d : TransferDirection) (bytes_hint : ℕ) → Fits limits d bytes_hint
unfolding lane_chunk_bytes chunk_bytes_for chunk_count max_pinned_bytes env_u64 text bytes_beq
limits-Fits h2d bytes_hint = omega arith
limits-Fits d2h bytes_hint = omega arith

initial-Holds : Holds limits initial []
unfolding IsOrdered all_bytes count_direction is_leased
initial-Holds = record {
  good = record {
    ordered = omega arith;
    in_budget = inr (omega arith);
    in_lanes = λ d. inr (omega arith);
  };
  distinct = tt;
  marked = λ id. refl;
}

abbrev calls : List Event
calls = acquires h2d 0 5 ∷ acquires d2h 0 50 ∷ releases 1 7 ∷ looks 8 ∷ acquires h2d 2 5 ∷ []

run-Holds_example :
    Holds limits
      (run limits (λ m n. acl) calls initial []).0
      (run limits (λ m n. acl) calls initial []).1
run-Holds_example =
    run-Holds limits limits-Fits (λ m n. acl) calls initial [] (λ m n. acl-IsExact) (omega arith)
      initial-Holds

abbrev one_lane : TransferLane
one_lane = record {
  lane_id = 1;
  direction = h2d;
  active_device_id = some 0;
  chunk_bytes = 5;
  stream = 3;
  events = 0 ∷ 1 ∷ [];
  chunks = record { ptr = 0; bytes = 5 } ∷ record { ptr = 1; bytes = 5 } ∷ [];
  busy = true;
  idle_since = none;
  acquire_count = 1;
}

abbrev one : ManagerState
one = record initial { next_lane_id = 2; lanes = one_lane ∷ []; total_acquires = 1 }

abbrev lease : LaneLeaseInfo
lease = record {
  lane_id = 1;
  direction = h2d;
  active_device_id = 0;
  chunk_bytes = 5;
  chunk_count = 2;
  pinned_footprint_bytes = 10;
  stream_id = 3;
  chunks =
      record { ptr = 0; bytes = 5; event_id = 0 }
      ∷ record { ptr = 1; bytes = 5; event_id = 1 }
      ∷ [];
}

first_lease : acquire limits (λ n. acl) 1 initial h2d 0 5 ≡ leased lease one
unfolding acquire pass pass_at miss grow create open_lane open_chunks position is_reusable
    reap_expired_lanes reap_expired_from lane_chunk_bytes chunk_bytes_for chunk_count
    max_pinned_bytes max_lanes_for env_u64 idle_ttl idle_ttl_ms lanes_bytes count_direction
    lane_lease_info chunk_views views_bytes text bytes_beq
first_lease = refl

acquire-Leases_example : Leases 1 [] (one_lane ∷ [])
acquire-Leases_example =
    acquire-Leases limits (λ n. acl) 1 initial h2d 0 5 (λ n. acl-IsExact) (limits-Fits h2d 5)
      (omega arith) (omega arith) initial-Holds.good lease one first_lease

acquire_terminates_example : acquire limits (λ n. acl) 1 initial h2d 0 5 ≢ again initial
acquire_terminates_example =
    acquire_terminates limits (λ n. acl) 1 initial h2d 0 5 (λ n. acl-IsExact) (limits-Fits h2d 5)
      (omega arith) (omega arith) initial-Holds.good initial

one-Good : Good limits one
unfolding IsOrdered all_bytes count_direction max_lanes_for max_pinned_bytes env_u64 text bytes_beq
    chunks_bytes same_direction
one-Good = record {
  ordered = (omega arith, omega arith);
  in_budget = inr (omega arith);
  in_lanes = counts;
}
  where
    counts :
        (d : TransferDirection)
        → (max_lanes_for limits d ≡ 0) ⊎ (count_direction d one.lanes ≤ max_lanes_for limits d)
    counts h2d = inr (omega arith)
    counts d2h = inl refl

acquire_waits_example : any_busy one.lanes ≡ true
unfolding acquire pass pass_at miss grow create position is_reusable reap_expired_lanes
    reap_expired_from is_expired reap_one_idle_lane lane_chunk_bytes chunk_bytes_for chunk_count
    max_pinned_bytes max_lanes_for env_u64 idle_ttl idle_ttl_ms lanes_bytes count_direction
    same_direction text bytes_beq
acquire_waits_example =
    acquire_waits limits (λ n. acl) 2 one h2d 1 5 (λ n. acl-IsExact) (limits-Fits h2d 5)
      (omega arith) (omega arith) one-Good one refl

stats_lem_example :
    ((stats limits 9 one).0.pinned_used_bytes + (stats limits 9 one).0.pinned_idle_bytes
      ≡ (stats limits 9 one).0.pinned_total_bytes)
    × ((stats limits 9 one).0.h2d_lane_count + (stats limits 9 one).0.d2h_lane_count
        ≡ length (stats limits 9 one).1.lanes)
    × ((stats limits 9 one).0.h2d_busy_lanes ≤ (stats limits 9 one).0.h2d_lane_count)
    × ((stats limits 9 one).0.d2h_busy_lanes ≤ (stats limits 9 one).0.d2h_lane_count)
unfolding stats reap_expired_lanes reap_expired_from is_expired idle_ttl idle_ttl_ms all_bytes
    chunks_bytes env_u64 text bytes_beq
stats_lem_example = stats_lem limits 9 one (omega arith)

abbrev idle : ManagerState
idle = record one {
  lanes = record one_lane { busy = false; active_device_id = none; idle_since = some 0 } ∷ [];
}

reap_expired_lanes-Balanced_example : Balanced idle (reap_expired_lanes limits 100000000000 idle)
unfolding all_bytes chunks_bytes
reap_expired_lanes-Balanced_example =
    reap_expired_lanes-Balanced limits 100000000000 idle (omega arith) (omega arith)

abbrev reaped : ManagerState
reaped = record one { lanes = []; idle_reaped_lanes = 1; idle_reaped_bytes = 10 }

reap_one_idle_lane-Balanced_example : Balanced idle reaped
unfolding reap_one_idle_lane position all_bytes chunks_bytes same_direction
reap_one_idle_lane-Balanced_example =
    reap_one_idle_lane-Balanced idle reaped (some h2d) (omega arith) (omega arith) refl

abbrev failing : LaneLeaseInfo → Result Str ℕ
failing info = err (text "copy failed")

abbrev acl_answers : Answers
acl_answers = record { own = λ m n. acl; theirs = λ k m n. acl; released_at = 9 }

-- Another client asks for a lane while the transfer runs.
abbrev rival : LaneLeaseInfo → List Event
rival info = acquires h2d 0 5 ∷ looks 3 ∷ []

with_lane-IsExclusive_example :
    IsExclusive limits
      (with_lane limits acl_answers failing rival ((looks 1 ∷ []) ∷ []) (initial, []) h2d 0 5)
with_lane-IsExclusive_example =
    with_lane-IsExclusive limits limits-Fits acl_answers failing rival (λ m n. acl-IsExact)
      (λ k m n. acl-IsExact) (λ info. refl) 2 (λ info. omega arith) ((looks 1 ∷ []) ∷ []) initial []
      h2d 0 5 (omega arith) initial-Holds
