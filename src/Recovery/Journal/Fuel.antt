-- ===== src/Recovery/Journal/Fuel.antt =====
-- The end of the loop of `parse_frames` in crates/uf-daemon/src/ddr_recovery_journal.rs.
use uflow.Prelude.{
  ℕ, zero, suc, ◌+◌, ◌*◌, ◌≤◌, ◌≡◌, ◌≢◌, refl, List, [], ◌∷◌, ok, err, length, drop, length-drop,
  Result-cases, inl, inr, arith,
}
use native.Mathlib.Nat.{suc-add}
use uflow.Recovery.Journal.Frame.{out_of_fuel, Kind, Frame, decode_kind}
use uflow.Recovery.Journal.Scan.{number_at, read_sized, read_frame, scan}

decode_kind-ne-out_of_fuel : (n : ℕ) → decode_kind n ≢ err out_of_fuel
unfolding decode_kind
decode_kind-ne-out_of_fuel n e = ground (arith, e)

module _ (sequence previous : ℕ) (bytes : List ℕ) where
  read_sized-ne-out_of_fuel :
      (kind : Kind) (len : ℕ) → read_sized sequence previous kind len bytes ≢ err out_of_fuel
  unfolding read_sized
  read_sized-ne-out_of_fuel kind len e = ground (arith, e)

  read_frame-ne-out_of_fuel : read_frame sequence previous bytes ≢ err out_of_fuel
  unfolding read_frame
  read_frame-ne-out_of_fuel e = elim (Result-cases (decode_kind (number_at 6 8 bytes))) [
    | inr (x, bad) ↦ decode_kind-ne-out_of_fuel (number_at 6 8 bytes) (ground (arith, e, bad))
    | inl (kind, known) ↦
        read_sized-ne-out_of_fuel kind (number_at 24 28 bytes) (ground (arith, e, known))
  ]

  read_sized_takes :
      (kind : Kind) (len total : ℕ) (frame : Frame)
      → read_sized sequence previous kind len bytes ≡ ok (frame, total)
      → 41 ≤ total
  unfolding read_sized
  read_sized_takes kind len total frame e = ground (arith, e)

  -- A frame has 41 bytes or more.
  read_frame_takes :
      (total : ℕ) (frame : Frame)
      → read_frame sequence previous bytes ≡ ok (frame, total)
      → 41 ≤ total
  unfolding read_frame
  read_frame_takes total frame e = elim (Result-cases (decode_kind (number_at 6 8 bytes))) [
    | inr (x, bad) ↦ absurd (ground (arith, e, bad))
    | inl (kind, known) ↦
        read_sized_takes kind (number_at 24 28 bytes) total frame (ground (arith, e, known))
  ]

-- The loop ends, on all bytes: a turn for every 41 of them is enough to come to the frames or to an error of the
-- code, and with more turns these are the same.
pub scan_terminates :
    (fuel more sequence previous : ℕ) (bytes : List ℕ)
    → length bytes ≤ 41 * fuel
    → (scan fuel sequence previous bytes ≢ err out_of_fuel)
      × (scan fuel sequence previous bytes ≡ scan (fuel + more) sequence previous bytes)
unfolding scan
scan_terminates fuel more sequence previous [] enough = (λ e. ground (arith, e), refl)
scan_terminates zero more sequence previous (b ∷ bs) enough = absurd (omega arith)
scan_terminates (suc fuel) more sequence previous (b ∷ bs) enough =
    elim (Result-cases (read_frame sequence previous (b ∷ bs))) [
      | inr (x, bad) ↦ (
        λ e. read_frame-ne-out_of_fuel sequence previous (b ∷ bs) (ground (arith, e, bad)),
        rw (suc-add, bad) refl,
      )
      | inl ((frame, total), there) ↦
          let (ends, same) =
            scan_terminates fuel more frame.sequence frame.checksum (drop total (b ∷ bs))
              (left total frame there) in
          (λ e. ends (ground (arith, e, there)), rw (suc-add, there, same) refl)
    ]
  where
    left :
        (total : ℕ) (frame : Frame)
        → read_frame sequence previous (b ∷ bs) ≡ ok (frame, total)
        → length (drop total (b ∷ bs)) ≤ 41 * fuel
    left total frame there = omega (
      arith,
      length-drop total (b ∷ bs),
      enough,
      read_frame_takes sequence previous (b ∷ bs) total frame there,
    )
