-- ===== src/Recovery/Journal/Grow.antt =====
-- An entry more in a journal of crates/uf-daemon/src/ddr_recovery_journal.rs.
use uflow.Prelude.{
  ℕ, zero, suc, ◌+◌, ◌-◌, ◌≤◌, ◌<◌, ◌≡◌, refl, sym, ap, ◌∙◌, List, [], ◌∷◌, ◌++◌, some, All, arith,
  length, append_assoc, append-nil, u64_mod,
}
use native.Mathlib.Nat.{add-zero}
use uflow.Recovery.Journal.Checksum.{crc64}
use uflow.Recovery.Journal.Frame.{
  Kind, Frame, checked_bytes, encoded_bytes, max_payload, trailer_len,
}
use uflow.Recovery.Journal.Scan.{number_at}
use uflow.Recovery.Journal.Layout.{encoded-Parts, length-encoded_bytes}
use uflow.Recovery.Journal.Chain.{
  Entry, frame_of, entry_bytes, chain_bytes, chain_frames, chain_end,
}
use uflow.Recovery.Journal.Store.{frame_at, last_frame}

shift : (m n : ℕ) → m + suc n ≡ m + 1 + n
shift m n = omega arith

pub chain_bytes-append :
    (sequence previous : ℕ) (es : List Entry) (e : Entry)
    → chain_bytes sequence previous (es ++ (e ∷ []))
      ≡ chain_bytes sequence previous es
        ++ entry_bytes (sequence + length es) (chain_end sequence previous es) e
unfolding chain_bytes chain_end
chain_bytes-append sequence previous [] e =
    rw add-zero (append-nil (entry_bytes sequence previous e))
chain_bytes-append sequence previous (x ∷ es) e =
    let sum = (frame_of sequence previous x).checksum in
    ap (◌++◌ (entry_bytes sequence previous x)) (chain_bytes-append (sequence + 1) sum es e)
    ∙ rw (shift sequence (length es)) (
        sym (
          append_assoc (entry_bytes sequence previous x) (chain_bytes (sequence + 1) sum es)
            (entry_bytes (sequence + 1 + length es) (chain_end (sequence + 1) sum es) e)))

pub chain_frames-append :
    (sequence previous : ℕ) (es : List Entry) (e : Entry)
    → chain_frames sequence previous (es ++ (e ∷ []))
      ≡ chain_frames sequence previous es
        ++ (frame_of (sequence + length es) (chain_end sequence previous es) e ∷ [])
unfolding chain_frames chain_end
chain_frames-append sequence previous [] e = rw add-zero refl
chain_frames-append sequence previous (x ∷ es) e = rw (shift sequence (length es)) (
    ap (◌∷◌ (frame_of sequence previous x))
      (chain_frames-append (sequence + 1) (frame_of sequence previous x).checksum es e))

pub chain_end-append :
    (sequence previous : ℕ) (es : List Entry) (e : Entry)
    → chain_end sequence previous (es ++ (e ∷ []))
      ≡ (frame_of (sequence + length es) (chain_end sequence previous es) e).checksum
unfolding chain_end
chain_end-append sequence previous [] e = rw add-zero refl
chain_end-append sequence previous (x ∷ es) e =
    rw (shift sequence (length es))
      (chain_end-append (sequence + 1) (frame_of sequence previous x).checksum es e)

pub length-chain_frames :
    (sequence previous : ℕ) (es : List Entry)
    → length (chain_frames sequence previous es) ≡ length es
unfolding chain_frames
length-chain_frames sequence previous [] = refl
length-chain_frames sequence previous (x ∷ es) =
    ap suc (length-chain_frames (sequence + 1) (frame_of sequence previous x).checksum es)

-- A frame that is there stays where it is.
pub frame_at-append :
    (i : ℕ) (fs gs : List Frame) (f : Frame)
    → frame_at i fs ≡ some f
    → frame_at i (fs ++ gs) ≡ some f
unfolding frame_at
frame_at-append i [] gs f there = absurd (ground (arith, there))
frame_at-append zero (x ∷ fs) gs f there = there
frame_at-append (suc i) (x ∷ fs) gs f there = frame_at-append i fs gs f there

pub frame_at-length : (fs : List Frame) (f : Frame) → frame_at (length fs) (fs ++ (f ∷ [])) ≡ some f
unfolding frame_at
frame_at-length [] f = refl
frame_at-length (x ∷ fs) f = frame_at-length fs f

pub last_frame-append : (fs : List Frame) (f : Frame) → last_frame (fs ++ (f ∷ [])) ≡ some f
unfolding last_frame
last_frame-append [] f = refl
last_frame-append (x ∷ []) f = refl
last_frame-append (x ∷ y ∷ fs) f = last_frame-append (y ∷ fs) f

pub All-snoc {ℓ} :
    (P : Entry → Type ℓ) (es : List Entry) (e : Entry) → All P es → P e → All P (es ++ (e ∷ []))
All-snoc P [] e all last = (last, tt)
All-snoc P (x ∷ es) e (first, all) last = (first, All-snoc P es e all last)

-- The checksum that stands in an encoded frame.
pub checksum_of_frame :
    (kind : Kind) (sequence previous : ℕ) (payload : List ℕ)
    → sequence < u64_mod
    → previous < u64_mod
    → length payload ≤ max_payload
    → number_at
        (length (encoded_bytes kind sequence previous payload) - trailer_len)
        (length (encoded_bytes kind sequence previous payload) - trailer_len + 8)
        (encoded_bytes kind sequence previous payload)
      ≡ crc64 (checked_bytes kind sequence previous payload)
checksum_of_frame kind sequence previous payload small chained fits =
    let parts = encoded-Parts kind sequence previous payload [] small chained fits in
    rw (place, sym (append-nil (encoded_bytes kind sequence previous payload))) parts.checksum
  where
    place :
        length (encoded_bytes kind sequence previous payload) - trailer_len ≡ 28 + length payload
    place = omega (arith, length-encoded_bytes kind sequence previous payload)
