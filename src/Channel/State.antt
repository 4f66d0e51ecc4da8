-- ===== src/Channel/State.antt =====
-- `ManagerState` of crates/uf-daemon/src/transfer_channel.rs and the configuration that it reads.
-- The environment is a parameter: the variable `key`, parsed as a number. Times are in nanoseconds,
-- and the microseconds that a client waited, which are floating-point and only reported, are left out.
use uflow.Prelude.{
  ℕ, ◌+◌, ◌*◌, ◌%◌, List, [], ◌∷◌, Bool, true, false, Option, none, some, max, ltb, if◌then◌else◌,
  u64_mod, ◌==◌,
}
use uflow.Prelude.Text.{Str, text}

pub data TransferDirection : Type 0 where
  h2d d2h : TransferDirection

-- `a == b` on directions
unfoldable pub same_direction : TransferDirection → TransferDirection → Bool
same_direction h2d h2d = true
same_direction h2d d2h = false
same_direction d2h h2d = false
same_direction d2h d2h = true

pub record PinnedChunk : Type 0 where
  pub ptr : ℕ
  pub bytes : ℕ

pub record TransferLane : Type 0 where
  pub lane_id : ℕ
  pub direction : TransferDirection
  pub active_device_id : Option ℕ
  pub chunk_bytes : ℕ
  pub stream : ℕ
  pub events : List ℕ
  pub chunks : List PinnedChunk
  pub busy : Bool
  pub idle_since : Option ℕ
  pub acquire_count : ℕ

pub record ManagerState : Type 0 where
  pub next_lane_id : ℕ
  pub lanes : List TransferLane
  pub lane_wait_count : ℕ
  pub total_acquires : ℕ
  pub idle_reaped_lanes : ℕ
  pub idle_reaped_bytes : ℕ

abbrev pub wrapping_add : ℕ → ℕ → ℕ
wrapping_add a b = (a + b) % u64_mod

unfoldable pub chunks_bytes : List PinnedChunk → ℕ
chunks_bytes [] = 0
chunks_bytes (c ∷ cs) = wrapping_add c.bytes (chunks_bytes cs)

-- `TransferLane::footprint_bytes`
abbrev pub footprint_bytes : TransferLane → ℕ
footprint_bytes lane = chunks_bytes lane.chunks

unfoldable pub lanes_bytes : List TransferLane → ℕ
lanes_bytes [] = 0
lanes_bytes (lane ∷ lanes) = wrapping_add (footprint_bytes lane) (lanes_bytes lanes)

-- `pinned_total_bytes`
abbrev pub pinned_total_bytes : ManagerState → ℕ
pinned_total_bytes s = lanes_bytes s.lanes

unfoldable pub count_direction : TransferDirection → List TransferLane → ℕ
count_direction d [] = 0
count_direction d (lane ∷ lanes) =
    let others = count_direction d lanes in
    if same_direction lane.direction d then others + 1 else others

-- `direction_lane_count`
abbrev pub direction_lane_count : ManagerState → TransferDirection → ℕ
direction_lane_count s d = count_direction d s.lanes

-- `env::var(key).ok().and_then(|value| value.parse().ok())`
abbrev pub Env : Type 0
Env = Str → Option ℕ

abbrev positive : Option ℕ → Option ℕ
positive none = none
positive (some n) = if ltb 0 n then some n else none

abbrev or_else : Option ℕ → Option ℕ → Option ℕ
or_else none other = other
or_else (some n) other = some n

abbrev unwrap_or : ℕ → Option ℕ → ℕ
unwrap_or default none = default
unwrap_or default (some n) = n

-- `env_u64`
unfoldable pub env_u64 : Env → Str → Option ℕ
env_u64 env key = positive (env key)

-- `chunk_count`
unfoldable pub chunk_count : Env → ℕ
chunk_count env = unwrap_or 2 (positive (env (text "UF_PINNED_CHUNK_COUNT")))

abbrev direction_key : TransferDirection → Str
direction_key h2d = text "UF_H2D_PINNED_CHUNK_BYTES"
direction_key d2h = text "UF_D2H_PINNED_CHUNK_BYTES"

abbrev default_chunk_bytes : TransferDirection → ℕ
default_chunk_bytes h2d = 16 * 1024 * 1024
default_chunk_bytes d2h = 64 * 1024 * 1024

-- `chunk_bytes_for`
unfoldable pub chunk_bytes_for : Env → TransferDirection → ℕ
chunk_bytes_for env d =
    max
      (unwrap_or (default_chunk_bytes d) (
        or_else
          (or_else (env_u64 env (direction_key d)) (env_u64 env (text "UF_PINNED_CHUNK_BYTES")))
          (env_u64 env (text "UF_DDR_COPY_CHUNK_BYTES"))))
      1

-- `max_pinned_bytes`
unfoldable pub max_pinned_bytes : Env → ℕ
max_pinned_bytes env = unwrap_or 0 (env_u64 env (text "UF_PINNED_MAX_BYTES"))

abbrev max_lanes_key : TransferDirection → Str
max_lanes_key h2d = text "UF_H2D_MAX_LANES"
max_lanes_key d2h = text "UF_D2H_MAX_LANES"

-- `max_lanes_for`
unfoldable pub max_lanes_for : Env → TransferDirection → ℕ
max_lanes_for env d = unwrap_or 0 (env (max_lanes_key d))

-- `idle_ttl_ms`
unfoldable pub idle_ttl_ms : Env → ℕ
idle_ttl_ms env = unwrap_or 30000 (env (text "UF_PINNED_IDLE_TTL_MS"))

-- `idle_ttl`, in nanoseconds
unfoldable pub idle_ttl : Env → Option ℕ
idle_ttl env = let ms = idle_ttl_ms env in if ms == 0 then none else some (ms * 1000000)
