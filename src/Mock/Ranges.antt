-- ===== src/Mock/Ranges.antt =====
-- Slices and ranges of crates/uf-daemon/src/providers/mock.rs.
use uflow.Prelude.{
  ℕ, zero, suc, ◌+◌, ◌<◌, ◌≤◌, ◌≡◌, ◌≢◌, refl, ap, ◌∙◌, List, ◌++◌, ok, err, arith, u64_mod, length,
  length-append, length-take, length-drop, take, drop, take-append, drop-append, drop-add,
}
use uflow.Mock.State.{panic, check_range, slice, overwrite, seeded}

-- What a range check that passes has checked.
pub check_range-eq-ok :
    (total offset nbytes : ℕ)
    → check_range total offset nbytes ≡ ok tt
    → (nbytes ≢ 0) × (offset + nbytes ≤ total) × (offset + nbytes < u64_mod)
unfolding check_range
check_range-eq-ok total offset nbytes e = ground arith

pub check_range_complete :
    (total offset nbytes : ℕ)
    → nbytes ≢ 0
    → offset + nbytes ≤ total
    → total < u64_mod
    → check_range total offset nbytes ≡ ok tt
unfolding check_range
check_range_complete total offset nbytes n fits bound = ground arith

-- A range check never panics.
pub check_range-ne-panic : (total offset nbytes : ℕ) → check_range total offset nbytes ≢ err panic
unfolding check_range
check_range-ne-panic total offset nbytes e = ground arith

pub slice_total :
    (bytes : List ℕ) (offset nbytes : ℕ)
    → offset + nbytes ≤ length bytes
    → slice bytes offset nbytes ≡ ok (take nbytes (drop offset bytes))
unfolding slice
slice_total bytes offset nbytes fits = ground arith

pub length_range :
    (bytes : List ℕ) (offset nbytes : ℕ)
    → offset + nbytes ≤ length bytes
    → length (take nbytes (drop offset bytes)) ≡ nbytes
length_range bytes offset nbytes fits =
    omega (arith, length-take nbytes (drop offset bytes), length-drop offset bytes)

pub overwrite_total :
    (bytes : List ℕ) (offset : ℕ) (new : List ℕ)
    → offset + length new ≤ length bytes
    → overwrite bytes offset new
      ≡ ok (take offset bytes ++ (new ++ drop (offset + length new) bytes))
unfolding overwrite
overwrite_total bytes offset new fits = ground arith

overwritten-length :
    (bytes : List ℕ) (offset : ℕ) (new : List ℕ)
    → offset + length new ≤ length bytes
    → length (take offset bytes ++ (new ++ drop (offset + length new) bytes)) ≡ length bytes
overwritten-length bytes offset new fits = omega (
  arith,
  length-append (take offset bytes) (new ++ drop (offset + length new) bytes),
  length-append new (drop (offset + length new) bytes),
  length-take offset bytes,
  length-drop (offset + length new) bytes,
)

-- Writing into a slice keeps the length.
pub length-overwrite :
    (bytes : List ℕ) (offset : ℕ) (new written : List ℕ)
    → overwrite bytes offset new ≡ ok written
    → length written ≡ length bytes
unfolding overwrite
length-overwrite bytes offset new written e = ground (arith, overwritten-length bytes offset new)

length_of_taken : (n : ℕ) (xs : List ℕ) → n ≤ length xs → length (take n xs) ≡ n
length_of_taken n xs h = omega (arith, length-take n xs)

front_taken :
    (n : ℕ) (xs front rest : List ℕ)
    → length front ≡ n
    → xs ≡ front ++ rest
    → (take n xs ≡ front) × (drop n xs ≡ rest)
front_taken n xs front rest len e = rw (← len, e) (take-append front rest, drop-append front rest)

-- Reading the range that was written gives what was written; the bytes before it are as they were.
pub slice-overwrite :
    (bytes : List ℕ) (offset : ℕ) (new written : List ℕ)
    → offset + length new ≤ length bytes
    → overwrite bytes offset new ≡ ok written
    → (take (length new) (drop offset written) ≡ new)
      × (take offset written ≡ take offset bytes)
      × (drop (offset + length new) written ≡ drop (offset + length new) bytes)
unfolding overwrite
slice-overwrite bytes offset new written fits e =
    let rest : List ℕ = drop (offset + length new) bytes in
    let whole : written ≡ take offset bytes ++ (new ++ rest) = ground arith in
    let len : length (take offset bytes) ≡ offset =
      length_of_taken offset bytes (omega (arith, fits)) in
    let (front, back) = front_taken offset written (take offset bytes) (new ++ rest) len whole in
    let (middle, tail) = front_taken (length new) (drop offset written) new rest refl back in
    (middle, front, drop-add offset (length new) written ∙ tail)

pub length-seeded : (seed_id index n : ℕ) → length (seeded seed_id index n) ≡ n
unfolding seeded
length-seeded seed_id index zero = refl
length-seeded seed_id index (suc n) = ap suc (length-seeded seed_id (suc index) n)
