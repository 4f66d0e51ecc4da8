-- ===== src/Bridge/Stream.antt =====
-- `BridgeFrame::write_to` and `read_from` of crates/uf-core/src/bridge.rs over byte streams in memory:
-- the writer is a `Vec<u8>` and the reader a `&[u8]`, whose only error is the end of the input.
use uflow.Prelude.{
  ℕ, ◌+◌, ◌*◌, ◌^◌, ◌≤◌, ◌<◌, ◌≡◌, refl, sym, ap, ◌∙◌, List, [], ◌++◌, Result-cases, inl, inr,
  Result, ok, err, length, take, drop, ltb, leb, ◌||◌, if◌then◌else◌, Option, none, some, arith,
  append_assoc, length-append, take-append, drop-append,
}
use uflow.Bridge.Wire.{ProtocolError, truncated, invalid_length, io, to_be_bytes, from_be_bytes}
use uflow.Bridge.Frame.{BridgeFrame, IsTyped, fixed_header_bytes, u16_max, bridge_max_body_bytes}
use uflow.Bridge.Codec.{encode, decode}
use uflow.Bridge.RoundTrip.{decode-encode, length-frame_bytes, encode-eq-ok}
use uflow.Bridge.Reads.{from_be_bytes-to_be_bytes, length-to_be_bytes}

unfoldable pub write_to : BridgeFrame → List ℕ → Result ProtocolError (List ℕ)
write_to f writer = elim (encode f) [
  | ok encoded ↦ ok (writer ++ (to_be_bytes 4 (length encoded) ++ encoded))
  | err e ↦ err e
]

-- `reader.read_exact(&mut buffer)` into a buffer of `n` bytes; `none` is `UnexpectedEof`.
unfoldable pub read_exact : ℕ → List ℕ → Option (List ℕ × List ℕ)
read_exact n reader = if leb n (length reader) then some (take n reader, drop n reader) else none

abbrev pub max_frame : ℕ
max_frame = fixed_header_bytes + 4 * u16_max + bridge_max_body_bytes

-- The part of `read_from` behind the length prefix.
unfoldable pub read_sized : ℕ → List ℕ → Result ProtocolError (BridgeFrame × List ℕ)
read_sized size reader =
    if ltb size fixed_header_bytes || ltb max_frame size
    then err invalid_length
    else (elim (read_exact size reader) [
      | none ↦ err io
      | some (bytes, rest) ↦ (elim (decode bytes) [ ok frame ↦ ok (frame, rest) | err e ↦ err e ])
    ])

unfoldable pub read_from : List ℕ → Result ProtocolError (BridgeFrame × List ℕ)
read_from reader = elim (read_exact 4 reader) [
  | none ↦ err truncated
  | some (prefix, rest) ↦ read_sized (from_be_bytes prefix) rest
]

read_exact-append :
    (n : ℕ) (front rest : List ℕ)
    → length front ≡ n
    → read_exact n (front ++ rest) ≡ some (front, rest)
unfolding read_exact
read_exact-append n front rest e =
    rw (← e)
      (ground (arith, length-append front rest, take-append front rest, drop-append front rest))

read_sized-append :
    (f : BridgeFrame) (bytes rest : List ℕ)
    → fixed_header_bytes ≤ length bytes
    → length bytes ≤ max_frame
    → decode bytes ≡ ok f
    → read_sized (length bytes) (bytes ++ rest) ≡ ok (f, rest)
unfolding read_sized
read_sized-append f bytes rest low high d =
    ground (arith, read_exact-append (length bytes) bytes rest refl, d)

read_from-prefix :
    (bytes rest : List ℕ)
    → length bytes < 256 ^ 4
    → read_from ((to_be_bytes 4 (length bytes) ++ bytes) ++ rest)
      ≡ read_sized (length bytes) (bytes ++ rest)
unfolding read_from
read_from-prefix bytes rest h =
    let prefix : List ℕ = to_be_bytes 4 (length bytes) in
    ground (
      arith,
      append_assoc prefix bytes rest,
      read_exact-append 4 prefix (bytes ++ rest) (length-to_be_bytes 4 (length bytes)),
      from_be_bytes-to_be_bytes 4 (length bytes) h,
    )

write_to-eq-ok :
    (f : BridgeFrame) (written : List ℕ)
    → write_to f [] ≡ ok written
    → (bytes : List ℕ) × (encode f ≡ ok bytes) × (to_be_bytes 4 (length bytes) ++ bytes ≡ written)
unfolding write_to
write_to-eq-ok f written e = elim (Result-cases (encode f)) [
  | inl (bytes, done) ↦ (bytes, done, ground (arith, done))
  | inr (x, failed) ↦ absurd (ground (arith, failed))
]

encoded_size :
    (f : BridgeFrame) (bytes : List ℕ)
    → encode f ≡ ok bytes
    → (fixed_header_bytes ≤ length bytes) × (length bytes ≤ max_frame)
encoded_size f bytes e =
    let (v, same) = encode-eq-ok f e in
    rw (← same)
      (omega (arith, length-frame_bytes f, v.realm, v.node, v.boot, v.session, v.body_fits))

-- A frame that was written to a stream is read from it again, and what follows it stays in the
-- stream.
pub read_from-write_to :
    (f : BridgeFrame) (rest written : List ℕ)
    → IsTyped f
    → write_to f [] ≡ ok written
    → read_from (written ++ rest) ≡ ok (f, rest)
read_from-write_to f rest written t e =
    let (bytes, done, framed) = write_to-eq-ok f written e in
    let (low, high) = encoded_size f bytes done in
    ap (λ (w : List ℕ). read_from (w ++ rest)) (sym framed)
    ∙ read_from-prefix bytes rest (omega (arith, high))
    ∙ read_sized-append f bytes rest low high (decode-encode f bytes t done)
