-- ===== src/Channel/Acquire.antt =====
-- `TransferChannelManager` of crates/uf-daemon/src/transfer_channel.rs: leasing a lane and giving it
-- back. What ACL answers and the clock are parameters.
use uflow.Prelude.{
  ℕ, zero, suc, ◌*◌, List, [], ◌∷◌, ◌++◌, Bool, true, false, ◌&&◌, ◌||◌, not, Option, none, some,
  min, max, ltb, leb, ◌==◌, if◌then◌else◌, u64_mod, wrapping_inc, Result, ok, err, ◌>>=◌, length,
}
use uflow.Prelude.Text.{Str, text, to_decimal}
use uflow.Channel.State.{
  TransferDirection, same_direction, PinnedChunk, TransferLane, ManagerState, wrapping_add,
  pinned_total_bytes, direction_lane_count, Env, chunk_count, chunk_bytes_for, max_pinned_bytes,
  max_lanes_for,
}
use uflow.Channel.Reap.{Place, position, reap_expired_lanes, reap_one_idle_lane}

-- `TransferChannelManager::new`
abbrev pub initial : ManagerState
initial = record {
  next_lane_id = 1;
  lanes = [];
  lane_wait_count = 0;
  total_acquires = 0;
  idle_reaped_lanes = 0;
  idle_reaped_bytes = 0;
}

-- What one pass of the loop in `acquire` gets from outside: the clock, whether the client has waited
-- for more than a microsecond, and the answers of ACL to the calls for each chunk.
pub record Inputs : Type 0 where
  pub now : ℕ
  pub waited : Bool
  pub create_stream : Result Str ℕ
  pub malloc_pinned_host : ℕ → ℕ → Result Str PinnedChunk
  pub create_event : ℕ → Result Str ℕ

pub record PinnedChunkView : Type 0 where
  pub ptr : ℕ
  pub bytes : ℕ
  pub event_id : ℕ

pub record LaneLeaseInfo : Type 0 where
  pub lane_id : ℕ
  pub direction : TransferDirection
  pub active_device_id : ℕ
  pub chunk_bytes : ℕ
  pub chunk_count : ℕ
  pub pinned_footprint_bytes : ℕ
  pub stream_id : ℕ
  pub chunks : List PinnedChunkView

-- `chunks.iter().zip(events.iter())`
unfoldable pub chunk_views : List PinnedChunk → List ℕ → List PinnedChunkView
chunk_views [] events = []
chunk_views (c ∷ cs) [] = []
chunk_views (c ∷ cs) (e ∷ es) =
    record { ptr = c.ptr; bytes = c.bytes; event_id = e } ∷ chunk_views cs es

unfoldable pub views_bytes : List PinnedChunkView → ℕ
views_bytes [] = 0
views_bytes (v ∷ vs) = wrapping_add v.bytes (views_bytes vs)

-- `lane_lease_info`
unfoldable pub lane_lease_info : TransferLane → ℕ → LaneLeaseInfo
lane_lease_info lane device = record {
  lane_id = lane.lane_id;
  direction = lane.direction;
  active_device_id = device;
  chunk_bytes = lane.chunk_bytes;
  chunk_count = length (chunk_views lane.chunks lane.events);
  pinned_footprint_bytes = views_bytes (chunk_views lane.chunks lane.events);
  stream_id = lane.stream;
  chunks = chunk_views lane.chunks lane.events;
}

-- How a pass ends: with a lease, an error, `cv.wait`, or `continue`.
pub data Outcome : Type 0 where
  leased : LaneLeaseInfo → ManagerState → Outcome
  refused : Str → ManagerState → Outcome
  waits : ManagerState → Outcome
  again : ManagerState → Outcome

-- The chunk size that a client of `bytes_hint` bytes gets.
unfoldable pub lane_chunk_bytes : Env → TransferDirection → ℕ → ℕ
lane_chunk_bytes env d bytes_hint = max (min (chunk_bytes_for env d) (max bytes_hint 1)) 1

-- A lane that can be leased again.
unfoldable pub is_reusable : TransferDirection → ℕ → TransferLane → Bool
is_reusable d chunk_bytes lane =
    not lane.busy && (same_direction lane.direction d && lane.chunk_bytes == chunk_bytes)

-- The counters after a lease.
abbrev pub count_lease : Bool → ManagerState → ManagerState
count_lease waited s = record s {
  total_acquires = wrapping_inc s.total_acquires;
  lane_wait_count = if waited then wrapping_inc s.lane_wait_count else s.lane_wait_count;
}

abbrev pub lease_again : TransferLane → ℕ → TransferLane
lease_again lane device = record lane {
  busy = true;
  active_device_id = some device;
  idle_since = none;
  acquire_count = wrapping_inc lane.acquire_count;
}

-- The first branch of the loop.
unfoldable pub reuse : Inputs → ManagerState → ℕ → Place → Outcome
reuse input s device place =
    let lane : TransferLane = lease_again place.lane device in
    leased (lane_lease_info lane device)
      (record (count_lease input.waited s) { lanes = place.before ++ (lane ∷ place.after) })

-- `for _ in 0..chunk_count`, from the chunk `index` on.
unfoldable pub open_chunks : Inputs → ℕ → ℕ → ℕ → Result Str (List PinnedChunk × List ℕ)
open_chunks input chunk_bytes index zero = ok ([], [])
open_chunks input chunk_bytes index (suc left) = do
  chunk ← input.malloc_pinned_host index chunk_bytes
  event ← input.create_event index
  (chunks, events) ← open_chunks input chunk_bytes (suc index) left
  ok (chunk ∷ chunks, event ∷ events)

-- The lane that `acquire` makes.
unfoldable pub open_lane : Env → Inputs → ℕ → TransferDirection → ℕ → ℕ → Result Str TransferLane
open_lane env input lane_id d device chunk_bytes = do
  stream ← input.create_stream
  (chunks, events) ← open_chunks input chunk_bytes 0 (chunk_count env)
  ok (record {
    lane_id = lane_id;
    direction = d;
    active_device_id = some device;
    chunk_bytes = chunk_bytes;
    stream = stream;
    events = events;
    chunks = chunks;
    busy = true;
    idle_since = none;
    acquire_count = 1;
  })

abbrev pub lease_new : Inputs → ManagerState → ℕ → Result Str TransferLane → Outcome
lease_new input s device (err detail) = refused detail s
lease_new input s device (ok lane) =
    leased (lane_lease_info lane device)
      (record (count_lease input.waited s) { lanes = s.lanes ++ (lane ∷ []) })

-- The branch that creates a lane; the id is taken before ACL is called.
unfoldable pub create : Env → Inputs → ManagerState → TransferDirection → ℕ → ℕ → Outcome
create env input s d device chunk_bytes =
    lease_new input (record s { next_lane_id = wrapping_inc s.next_lane_id }) device
      (open_lane env input s.next_lane_id d device chunk_bytes)

-- `if reap_one_idle_lane(...) { continue; } state = self.cv.wait(state)`
abbrev pub retry_or_wait : ManagerState → Option ManagerState → Outcome
retry_or_wait s none = waits s
retry_or_wait s (some t) = again t

unfoldable pub too_large : ℕ → ℕ → Str
too_large required budget =
    text "pinned lane requires "
    ++ (to_decimal required ++ (text " bytes but UF_PINNED_MAX_BYTES=" ++ to_decimal budget))

-- `max_lanes > 0 && direction_lane_count(...) >= max_lanes`
abbrev pub full_lanes : Env → ManagerState → TransferDirection → Bool
full_lanes env s d =
    ltb 0 (max_lanes_for env d) && leb (max_lanes_for env d) (direction_lane_count s d)

-- `budget == 0 || total + required <= budget`
abbrev pub has_room : Env → ManagerState → ℕ → Bool
has_room env s required =
    max_pinned_bytes env == 0
    || leb (wrapping_add (pinned_total_bytes s) required) (max_pinned_bytes env)

-- The rest of a pass, in the state `s` without the expired lanes.
unfoldable pub grow : Env → Inputs → ManagerState → TransferDirection → ℕ → ℕ → ℕ → Outcome
grow env input s d device chunk_bytes required =
    if full_lanes env s d
    then retry_or_wait s (reap_one_idle_lane s (some d))
    else if has_room env s required
    then create env input s d device chunk_bytes
    else if ltb (max_pinned_bytes env) required
    then refused (too_large required (max_pinned_bytes env)) s
    else retry_or_wait s (reap_one_idle_lane s none)

-- The part of a pass after the search for a lane to use again; `required` is a `checked_mul`.
unfoldable pub miss : Env → Inputs → ManagerState → TransferDirection → ℕ → ℕ → Outcome
miss env input s d device chunk_bytes =
    let required = chunk_bytes * chunk_count env in
    if ltb required u64_mod
    then grow env input (reap_expired_lanes env input.now s) d device chunk_bytes required
    else refused (text "pinned lane footprint overflow") s

unfoldable pub pass_at :
    Env → Inputs → ManagerState → TransferDirection → ℕ → ℕ → Option Place → Outcome
pass_at env input s d device chunk_bytes (some place) = reuse input s device place
pass_at env input s d device chunk_bytes none = miss env input s d device chunk_bytes

-- One pass of the loop in `acquire`.
unfoldable pub pass : Env → Inputs → ManagerState → TransferDirection → ℕ → ℕ → Outcome
pass env input s d device bytes_hint =
    let chunk_bytes = lane_chunk_bytes env d bytes_hint in
    pass_at env input s d device chunk_bytes (position (is_reusable d chunk_bytes) s.lanes)

abbrev pub after_pass : (ManagerState → Outcome) → Outcome → Outcome
after_pass next (leased info t) = leased info t
after_pass next (refused detail t) = refused detail t
after_pass next (waits t) = waits t
after_pass next (again t) = next t

-- `acquire` from the moment it holds the lock until it returns or waits, on fuel: a pass that ends
-- in `continue` is followed by another one. `inputs` answers by the fuel that is left.
unfoldable pub acquire : Env → (ℕ → Inputs) → ℕ → ManagerState → TransferDirection → ℕ → ℕ → Outcome
acquire env inputs zero s d device bytes_hint = again s
acquire env inputs (suc fuel) s d device bytes_hint =
    after_pass (λ t. acquire env inputs fuel t d device bytes_hint)
      (pass env (inputs fuel) s d device bytes_hint)

-- `release` of the lane with the id, at the time `now`
abbrev pub released : ℕ → TransferLane → TransferLane
released now lane = record lane { busy = false; active_device_id = none; idle_since = some now }

unfoldable pub release_lane : ℕ → ℕ → List TransferLane → List TransferLane
release_lane id now [] = []
release_lane id now (lane ∷ others) =
    let rest = release_lane id now others in
    if lane.lane_id == id then released now lane ∷ others else lane ∷ rest

-- `release`
unfoldable pub release : ManagerState → ℕ → ℕ → ManagerState
release s id now = record s { lanes = release_lane id now s.lanes }
