-- ===== src/Channel/Leases.antt =====
-- What leasing a lane does to the lanes of crates/uf-daemon/src/transfer_channel.rs.
use uflow.Prelude.{
  ℕ, zero, suc, ◌+◌, ◌*◌, ◌%◌, ◌≡◌, ◌≢◌, refl, sym, ap, ◌∙◌, List, [], ◌∷◌, ◌++◌, true, false,
  arith, none, some, inl, inr, u64_mod, ok, Result-cases, ◌==◌, if◌then◌else◌,
}
use uflow.Channel.State.{
  TransferDirection, same_direction, h2d, d2h, TransferLane, PinnedChunk, footprint_bytes,
  chunks_bytes, count_direction, Env, chunk_count,
}
use uflow.Channel.Acquire.{Inputs, lease_again, open_chunks, open_lane, release_lane}
use uflow.Channel.Lanes.{
  is_leased, all_bytes, IsOrdered, is_leased_outside, is_leased-append, is_leased_around,
  count_direction-append, all_bytes-append,
}

-- The lane `id` was free, is held now, and no other lane has changed hands.
pub record Leases (id : ℕ) (from lanes : List TransferLane) : Type 0 where
  pub was_free : is_leased id from ≡ false
  pub is_held : is_leased id lanes ≡ true
  pub others : (j : ℕ) → j ≢ id → is_leased j lanes ≡ is_leased j from

pub Leases-reuse :
    (low high device : ℕ) (before after : List TransferLane) (lane : TransferLane)
    → IsOrdered low (before ++ (lane ∷ after)) high
    → lane.busy ≡ false
    → Leases lane.lane_id (before ++ (lane ∷ after)) (before ++ (lease_again lane device ∷ after))
unfolding is_leased
Leases-reuse low high device before after lane o idle =
    let (b, a) = is_leased_around low before after lane high o in
    let old = λ (j : ℕ). is_leased-append j before (lane ∷ after) in
    let new = λ (j : ℕ). is_leased-append j before (lease_again lane device ∷ after) in
    record {
      was_free = ground (arith, old lane.lane_id, b, a, idle);
      is_held = ground (arith, new lane.lane_id, b, a);
      others = λ j other. ground (arith, old j, new j, idle, other);
    }

pub Leases-snoc :
    (low high : ℕ) (lanes : List TransferLane) (lane : TransferLane)
    → IsOrdered low lanes high
    → lane.lane_id ≡ high
    → lane.busy ≡ true
    → Leases lane.lane_id lanes (lanes ++ (lane ∷ []))
unfolding is_leased
Leases-snoc low high lanes lane o is held =
    let free = is_leased_outside lane.lane_id low lanes high o (inr (omega (arith, is))) in
    let new = λ (j : ℕ). is_leased-append j lanes (lane ∷ []) in
    record {
      was_free = free;
      is_held = ground (arith, new lane.lane_id, held);
      others = λ j other. ground (arith, new j, other);
    }

-- What a lease does not change about a lane.
pub count_direction-lease_again :
    (d : TransferDirection) (device : ℕ) (before after : List TransferLane) (lane : TransferLane)
    → count_direction d (before ++ (lease_again lane device ∷ after))
      ≡ count_direction d (before ++ (lane ∷ after))
unfolding count_direction
count_direction-lease_again d device before after lane =
    count_direction-append d before (lease_again lane device ∷ after)
    ∙ sym (count_direction-append d before (lane ∷ after))

pub all_bytes-lease_again :
    (device : ℕ) (before after : List TransferLane) (lane : TransferLane)
    → all_bytes (before ++ (lease_again lane device ∷ after)) ≡ all_bytes (before ++ (lane ∷ after))
unfolding all_bytes
all_bytes-lease_again device before after lane =
    all_bytes-append before (lease_again lane device ∷ after)
    ∙ sym (all_bytes-append before (lane ∷ after))

pub same_direction_sound : (a b : TransferDirection) → same_direction a b ≡ true → a ≡ b
unfolding same_direction
same_direction_sound h2d h2d e = refl
same_direction_sound h2d d2h e = ground arith
same_direction_sound d2h h2d e = ground arith
same_direction_sound d2h d2h e = refl

-- ACL pins as many bytes as it is asked for.
unfoldable pub IsExact : Inputs → Type 0
IsExact input =
    (index bytes : ℕ) (chunk : PinnedChunk)
    → input.malloc_pinned_host index bytes ≡ ok chunk
    → chunk.bytes ≡ bytes

open_chunks-bytes :
    (input : Inputs) (bytes index left : ℕ) (chunks : List PinnedChunk) (events : List ℕ)
    → IsExact input
    → open_chunks input bytes index left ≡ ok (chunks, events)
    → chunks_bytes chunks ≡ (bytes * left) % u64_mod
unfolding open_chunks chunks_bytes IsExact
open_chunks-bytes input bytes index zero chunks events exact e = ground arith
open_chunks-bytes input bytes index (suc left) chunks events exact e =
    elim (Result-cases (input.malloc_pinned_host index bytes)) [
      | inr (x, bad) ↦ absurd (ground (arith, bad))
      | inl (chunk, there) ↦ elim (Result-cases (input.create_event index)) [
        | inr (x, bad) ↦ absurd (ground (arith, there, bad))
        | inl (event, made) ↦ elim (Result-cases (open_chunks input bytes (suc index) left)) [
          | inr (x, bad) ↦ absurd (ground (arith, there, made, bad))
          | inl ((more, more_events), rest) ↦
              let tail =
                open_chunks-bytes input bytes (suc index) left more more_events exact rest in
              let is : chunks ≡ chunk ∷ more = ground (arith, there, made, rest) in
              ap chunks_bytes is ∙ omega (arith, tail, exact index bytes chunk there)
        ]
      ]
    ]

-- The lane that `open_lane` makes.
pub open_lane_effect :
    (env : Env) (input : Inputs) (id : ℕ) (d : TransferDirection) (device bytes : ℕ)
    (lane : TransferLane)
    → IsExact input
    → open_lane env input id d device bytes ≡ ok lane
    → (lane.lane_id ≡ id)
      × (lane.busy ≡ true)
      × (lane.direction ≡ d)
      × (footprint_bytes lane ≡ (bytes * chunk_count env) % u64_mod)
unfolding open_lane
open_lane_effect env input id d device bytes lane exact e =
    elim (Result-cases input.create_stream) [
      | inr (x, bad) ↦ absurd (ground (arith, bad))
      | inl (stream, s) ↦ elim (Result-cases (open_chunks input bytes 0 (chunk_count env))) [
        | inr (x, bad) ↦ absurd (ground (arith, s, bad))
        | inl ((chunks, events), c) ↦
            let size = open_chunks-bytes input bytes 0 (chunk_count env) chunks events exact c in
            (
              ground (arith, s, c),
              ground (arith, s, c),
              ground (arith, s, c),
              ap footprint_bytes (sym (opened stream chunks events s c)) ∙ size,
            )
      ]
    ]
  where
    opened :
        (stream : ℕ) (chunks : List PinnedChunk) (events : List ℕ)
        → input.create_stream ≡ ok stream
        → open_chunks input bytes 0 (chunk_count env) ≡ ok (chunks, events)
        → record {
          lane_id = id;
          direction = d;
          active_device_id = some device;
          chunk_bytes = bytes;
          stream = stream;
          events = events;
          chunks = chunks;
          busy = true;
          idle_since = none;
          acquire_count = 1;
        }
          ≡ lane
    opened stream chunks events s c = ground (arith, s, c)

-- `release` frees the lane, and no other.
pub is_leased-release :
    (low high id now j : ℕ) (lanes : List TransferLane)
    → IsOrdered low lanes high
    → is_leased j (release_lane id now lanes) ≡ (if j == id then false else is_leased j lanes)
unfolding is_leased release_lane IsOrdered
is_leased-release low high id now j [] o = ground arith
is_leased-release low high id now j (lane ∷ others) o =
    let free =
      is_leased_outside lane.lane_id (lane.lane_id + 1) others high o.1 (inl (omega arith)) in
    let rest = is_leased-release (lane.lane_id + 1) high id now j others o.1 in
    ground (arith, free, rest)
