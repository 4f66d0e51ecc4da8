-- ===== src/Channel/Lanes.antt =====
-- Lists of lanes, as crates/uf-daemon/src/transfer_channel.rs keeps them: which lanes are in use, the
-- order of their ids, and what closing an idle lane leaves.
use uflow.Prelude.{
  ℕ, ◌⊎◌, ◌+◌, ◌%◌, ◌≤◌, ◌<◌, ◌≡◌, refl, List, [], ◌∷◌, ◌++◌, Bool, true, false, ◌&&◌, ◌||◌, ◌==◌,
  arith, some, inl, inr, Bool-cases, Option-cases, u64_mod,
}
use uflow.Channel.State.{
  TransferDirection, TransferLane, lanes_bytes, footprint_bytes, count_direction,
}
use uflow.Channel.Reap.{Place, position}

-- A client holds the lane with the id.
unfoldable pub is_leased : ℕ → List TransferLane → Bool
is_leased id [] = false
is_leased id (lane ∷ others) = (lane.lane_id == id && lane.busy) || is_leased id others

-- Some lane is held.
unfoldable pub any_busy : List TransferLane → Bool
any_busy [] = false
any_busy (lane ∷ others) = lane.busy || any_busy others

-- The bytes of all lanes, without a bound.
unfoldable pub all_bytes : List TransferLane → ℕ
all_bytes [] = 0
all_bytes (lane ∷ others) = footprint_bytes lane + all_bytes others

-- The ids grow along the list, from `low` on and below `high`.
unfoldable pub IsOrdered : ℕ → List TransferLane → ℕ → Type 0
IsOrdered low [] high = low ≤ high
IsOrdered low (lane ∷ others) high = (low ≤ lane.lane_id) × IsOrdered (lane.lane_id + 1) others high

pub lanes_bytes-eq-all : (lanes : List TransferLane) → lanes_bytes lanes ≡ all_bytes lanes % u64_mod
unfolding lanes_bytes all_bytes
lanes_bytes-eq-all [] = refl
lanes_bytes-eq-all (lane ∷ others) = omega (arith, lanes_bytes-eq-all others)

pub position-eq-some :
    (test : TransferLane → Bool) (lanes : List TransferLane) (place : Place)
    → position test lanes ≡ some place
    → (lanes ≡ place.before ++ (place.lane ∷ place.after)) × (test place.lane ≡ true)
unfolding position
position-eq-some test [] place e = absurd (ground arith)
position-eq-some test (first ∷ others) place e = elim (Bool-cases (test first)) [
  | inl hit ↦ (ground (arith, hit), ground (arith, hit))
  | inr passed ↦ elim (Option-cases (position test others)) [
    | inl gone ↦ absurd (ground (arith, passed, gone))
    | inr (later, there) ↦
        let (is, passes) = position-eq-some test others later there in
        (ground (arith, passed, there, is), ground (arith, passed, there, passes))
  ]
]

pub IsOrdered-le :
    (low : ℕ) (lanes : List TransferLane) (high : ℕ) → IsOrdered low lanes high → low ≤ high
unfolding IsOrdered
IsOrdered-le low [] high o = o
IsOrdered-le low (lane ∷ others) high (first, rest) =
    omega (arith, first, IsOrdered-le (lane.lane_id + 1) others high rest)

pub IsOrdered-lower :
    (low less : ℕ) (lanes : List TransferLane) (high : ℕ)
    → less ≤ low
    → IsOrdered low lanes high
    → IsOrdered less lanes high
unfolding IsOrdered
IsOrdered-lower low less [] high l o = omega arith
IsOrdered-lower low less (lane ∷ others) high l (first, rest) = (omega arith, rest)

-- A lane at the end, with a new id.
pub IsOrdered-snoc :
    (low : ℕ) (lanes : List TransferLane) (high : ℕ) (lane : TransferLane) (next : ℕ)
    → IsOrdered low lanes high
    → lane.lane_id ≡ high
    → high < next
    → IsOrdered low (lanes ++ (lane ∷ [])) next
unfolding IsOrdered
IsOrdered-snoc low [] high lane next o is l = (omega arith, omega arith)
IsOrdered-snoc low (x ∷ xs) high lane next (first, rest) is l =
    (first, IsOrdered-snoc (x.lane_id + 1) xs high lane next rest is l)

-- Another lane with the same id in the place of one.
pub IsOrdered-replace :
    (low : ℕ) (before after : List TransferLane) (old new : TransferLane) (high : ℕ)
    → new.lane_id ≡ old.lane_id
    → IsOrdered low (before ++ (old ∷ after)) high
    → IsOrdered low (before ++ (new ∷ after)) high
unfolding IsOrdered
IsOrdered-replace low [] after old new high is (first, rest) = (rw is first, rw is rest)
IsOrdered-replace low (x ∷ xs) after old new high is (first, rest) =
    (first, IsOrdered-replace (x.lane_id + 1) xs after old new high is rest)

-- An id below or above those of the list is not leased.
pub is_leased_outside :
    (id low : ℕ) (lanes : List TransferLane) (high : ℕ)
    → IsOrdered low lanes high
    → (id < low) ⊎ (high ≤ id)
    → is_leased id lanes ≡ false
unfolding IsOrdered is_leased
is_leased_outside id low [] high o out = refl
is_leased_outside id low (lane ∷ others) high (first, rest) out =
    let above = IsOrdered-le (lane.lane_id + 1) others high rest in
    elim out [
      | inl below ↦
          let others_free =
            is_leased_outside id (lane.lane_id + 1) others high rest (inl (omega arith)) in
          ground (arith, others_free)
      | inr over ↦
          let others_free = is_leased_outside id (lane.lane_id + 1) others high rest (inr over) in
          ground (arith, others_free, above)
    ]

pub is_leased-append :
    (id : ℕ) (xs ys : List TransferLane)
    → is_leased id (xs ++ ys) ≡ (is_leased id xs || is_leased id ys)
unfolding is_leased
is_leased-append id [] ys = refl
is_leased-append id (x ∷ xs) ys = ground (arith, is_leased-append id xs ys)

-- In an ordered list the lanes around one have other ids.
pub is_leased_around :
    (low : ℕ) (before after : List TransferLane) (lane : TransferLane) (high : ℕ)
    → IsOrdered low (before ++ (lane ∷ after)) high
    → (is_leased lane.lane_id before ≡ false) × (is_leased lane.lane_id after ≡ false)
unfolding IsOrdered is_leased
is_leased_around low [] after lane high (first, rest) =
    (refl, is_leased_outside lane.lane_id (lane.lane_id + 1) after high rest (inl (omega arith)))
is_leased_around low (x ∷ xs) after lane high (first, rest) =
    let (b, a) = is_leased_around (x.lane_id + 1) xs after lane high rest in
    (ground (arith, b, later xs (x.lane_id + 1) rest), a)
  where
    later :
        (ys : List TransferLane) (l : ℕ)
        → IsOrdered l (ys ++ (lane ∷ after)) high
        → l ≤ lane.lane_id
    later [] l (f, r) = f
    later (y ∷ ys) l (f, r) = omega (arith, f, later ys (y.lane_id + 1) r)

pub count_direction-append :
    (d : TransferDirection) (xs ys : List TransferLane)
    → count_direction d (xs ++ ys) ≡ count_direction d xs + count_direction d ys
unfolding count_direction
count_direction-append d [] ys = omega arith
count_direction-append d (x ∷ xs) ys = ground (arith, count_direction-append d xs ys)

pub all_bytes-append :
    (xs ys : List TransferLane) → all_bytes (xs ++ ys) ≡ all_bytes xs + all_bytes ys
unfolding all_bytes
all_bytes-append [] ys = omega arith
all_bytes-append (x ∷ xs) ys = omega (arith, all_bytes-append xs ys)
