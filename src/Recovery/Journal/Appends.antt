-- ===== src/Recovery/Journal/Appends.antt =====
-- Appends to the journal of crates/uf-daemon/src/ddr_recovery_journal.rs that succeed.
use uflow.Prelude.{
  ℕ, zero, suc, ◌+◌, ◌≤◌, ◌<◌, ◌≡◌, refl, sym, ap, ◌∙◌, List, [], ◌∷◌, ◌++◌, Bool, true, false, ok,
  ok_or, checked_add, arith, length, take, drop, append-nil, append_assoc, length-append,
  length-take,
}
use native.Mathlib.Nat.{zero-add, suc-add}
use uflow.Prelude.Text.{Str, text, is_empty}
use uflow.Recovery.Journal.Frame.{
  invalid_data, Kind, clean_checkpoint, encode_frame, max_journal, header_len,
}
use uflow.Recovery.Journal.Layout.{length-encoded_bytes}
use uflow.Recovery.Journal.Chain.{Entry, chain_frames}
use uflow.Recovery.Journal.Head.{Head, encode_head}
use uflow.Recovery.Journal.Store.{AnchoredJournal, ◌>>◌, lift, verify}
use uflow.Recovery.Journal.Append.{
  write_all, append_inner, append_dirty, append_clean_after_drain, no_fault, is_dedicated, within,
}
use uflow.Recovery.Journal.Ops.{bind_ok, then_ok, poisoning_ok}
use uflow.Recovery.Journal.Ledger.{Logs, few, verify-Logs}
use uflow.Recovery.Journal.Grown.{Accepted, entry_frame, grown_head, grown, grown-Logs}

-- Bytes written at the end of a file are appended.
pub write_end :
    (offset : ℕ) (file bytes : List ℕ)
    → offset ≡ length file
    → take offset file ++ (bytes ++ drop (offset + length bytes) file) ≡ file ++ bytes
write_end offset file bytes e =
    rw (e, all_kept file, nothing_left file (length bytes)) (ap (◌++◌ file) (append-nil bytes))
  where
    all_kept : (xs : List ℕ) → take (length xs) xs ≡ xs
    all_kept [] = refl
    all_kept (x ∷ xs) = ap (◌∷◌ x) (all_kept xs)

    nothing_left : (xs : List ℕ) (n : ℕ) → drop (length xs + n) xs ≡ []
    nothing_left [] zero = refl
    nothing_left [] (suc n) = rw zero-add refl
    nothing_left (x ∷ xs) n = rw suc-add (nothing_left xs n)

pub take-then-drop : (n : ℕ) (xs : List ℕ) → take n xs ++ drop n xs ≡ xs
take-then-drop zero xs = refl
take-then-drop (suc n) [] = refl
take-then-drop (suc n) (x ∷ xs) = ap (◌∷◌ x) (take-then-drop n xs)

filled_some : (bytes : List ℕ) → 0 < length bytes → is_empty bytes ≡ false
unfolding is_empty
filled_some [] filled = ground arith
filled_some (b ∷ bs) filled = refl

module _ (offset : ℕ) (file frame : List ℕ) (here : offset ≡ length file)
    (long : header_len ≤ length frame) where
  abbrev half : List ℕ
  half =
      take offset file
      ++ (take header_len frame ++ drop (offset + length (take header_len frame)) file)

  -- A frame that is written at the end of a file in two parts.
  pub both_written :
      take (offset + header_len) half
        ++ (drop header_len frame
            ++ drop (offset + header_len + length (drop header_len frame)) half)
      ≡ file ++ frame
  both_written =
      rw
        (
          write_end offset file (take header_len frame) here,
          write_end (offset + header_len) (file ++ take header_len frame) (drop header_len frame)
              there,
          append_assoc file (take header_len frame) (drop header_len frame),
          take-then-drop header_len frame,
        )
        refl
    where
      there : offset + header_len ≡ length (file ++ take header_len frame)
      there =
          ground
            (arith, length-append file (take header_len frame), length-take header_len frame, here)

-- The writes without a fault, on a journal that ends at the offset.
written :
    (j : AnchoredJournal) (offset : ℕ) (frame : List ℕ) (next : Head)
    → offset ≡ length j.journal
    → header_len ≤ length frame
    → write_all no_fault offset frame next j
      ≡ (ok tt, record j { journal = j.journal ++ frame; state = encode_head next })
unfolding write_all ◌>>◌
written j offset frame next here long =
    rw (◌>>◌, both_written offset j.journal frame here long) refl

module _ (j : AnchoredJournal) (es : List Entry) (logs : Logs j es) where
  module _ (broker : Str) (kind : Kind) (payload : List ℕ) (checkpoint recovery : Bool)
      (accepted : Accepted j es broker (kind, payload) checkpoint recovery) where
    abbrev frame : List ℕ
    frame = entry_frame j (kind, payload)

    abbrev next : Head
    next = grown_head j broker checkpoint (kind, payload)

    pub encoded : encode_frame kind (j.head.sequence + 1) j.head.checksum payload ≡ ok frame
    unfolding encode_frame
    encoded = let (filled, fits) = accepted.fit in ground (arith, filled, fits, filled_some payload)

    pub offset_found :
        ok_or {A = ℕ}
          (within max_journal (checked_add j.head.offset (length frame)))
          (invalid_data (text "recovery journal limit reached"))
        ≡ ok (j.head.offset + length frame)
    offset_found = ground (arith, accepted.room)

    pub counted_on :
        ok_or (checked_add j.head.sequence 1) (invalid_data (text "recovery sequence overflow"))
        ≡ ok (j.head.sequence + 1)
    counted_on = ground (arith, few j es logs, logs.counted)

    -- An append that is accepted returns the next head and leaves the journal with the entry.
    pub append_inner-grown :
        append_inner (ok tt) (ok tt) broker kind payload checkpoint recovery no_fault j
        ≡ (ok next, grown j broker checkpoint (kind, payload))
    unfolding append_inner
    append_inner-grown =
        bind_ok _ j _ refl
        ∙ then_ok _ j _ (rw accepted.known refl)
        ∙ bind_ok _ j _ (verify-Logs j es logs)
        ∙ then_ok _ j _ (rw accepted.placed refl)
        ∙ bind_ok _ j _ (rw counted_on refl)
        ∙ bind_ok _ j _ (rw encoded refl)
        ∙ bind_ok _ j _ (poisoning_ok (lift _) j (rw offset_found refl))
        ∙ then_ok _ j _ (
            poisoning_ok (write_all no_fault j.head.offset frame next) j (
              written j j.head.offset frame next (logs.sized ∙ ap length (sym logs.bytes)) (
                rw (length-encoded_bytes kind (j.head.sequence + 1) j.head.checksum payload)
                  (omega arith))))
        ∙ then_ok _ _ _ refl
        ∙ bind_ok _ (grown j broker checkpoint (kind, payload)) _ (
            verify-Logs (grown j broker checkpoint (kind, payload)) (es ++ ((kind, payload) ∷ []))
              (grown-Logs j es logs broker kind payload checkpoint recovery accepted))

pub append_dirty-Logs :
    (j : AnchoredJournal) (es : List Entry) (broker : Str) (kind : Kind) (payload : List ℕ)
    → Logs j es
    → is_dedicated kind ≡ false
    → Accepted j es broker (kind, payload) false false
    → (append_dirty (ok tt) (ok tt) broker kind payload j
        ≡ (ok (grown_head j broker false (kind, payload)), grown j broker false (kind, payload)))
      × Logs (grown j broker false (kind, payload)) (es ++ ((kind, payload) ∷ []))
      × (verify (ok tt) (grown j broker false (kind, payload)) ≡ (
        ok (chain_frames 0 0 (es ++ ((kind, payload) ∷ []))),
        grown j broker false (kind, payload),
      ))
unfolding append_dirty
append_dirty-Logs j es broker kind payload logs open_kind accepted =
    let after = grown-Logs j es logs broker kind payload false false accepted in
    (
      rw open_kind (append_inner-grown j es logs broker kind payload false false accepted),
      after,
      verify-Logs (grown j broker false (kind, payload)) (es ++ ((kind, payload) ∷ [])) after,
    )

-- In a journal of entries whose files are in place, a clean checkpoint with a payload of 1 to 8,192 bytes for
-- which there is room is appended after the drain of the broker that has the dirty head; the head is then clean
-- at the checkpoint, and the files hold the entry as well.
pub append_clean_after_drain-Logs :
    (j : AnchoredJournal) (es : List Entry) (broker : Str) (payload : List ℕ)
    → Logs j es
    → Accepted j es broker (clean_checkpoint, payload) true false
    → (append_clean_after_drain (ok tt) (ok tt) broker payload j ≡ (
      ok (grown_head j broker true (clean_checkpoint, payload)),
      grown j broker true (clean_checkpoint, payload),
    ))
      × Logs
          (grown j broker true (clean_checkpoint, payload))
          (es ++ ((clean_checkpoint, payload) ∷ []))
unfolding append_clean_after_drain
append_clean_after_drain-Logs j es broker payload logs accepted = (
  append_inner-grown j es logs broker clean_checkpoint payload true false accepted,
  grown-Logs j es logs broker clean_checkpoint payload true false accepted,
)
