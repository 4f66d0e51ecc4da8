-- ===== src/Bridge/Tests.antt =====
-- The bridge's theorems at a concrete frame, and runs of the code of crates/uf-core/src/bridge.rs.
use uflow.Prelude.{
  ◌≡◌, ◌<◌, ◌↔◌, refl, [], ◌∷◌, ◌++◌, ok, err, arith, length, All, bytes_beq, if◌then◌else◌, ◌==◌,
}
use uflow.Prelude.Text.{is_empty, valid_utf8}
use uflow.Bridge.Wire.{ProtocolError, to_be_bytes, from_be_bytes, checksum64}
use uflow.Bridge.Reader.{◌>>=◌, take_be, take_bytes}
use uflow.Bridge.Frame.{
  BridgeFrame, IsTyped, probe, request, to_u16, try_from, validate, check_identity,
}
use uflow.Bridge.Codec.{
  encode, frame_bytes, decode, read_frame, read_header, read_string, read_body, check_lengths,
}
use uflow.Bridge.Validity.{IsValid}
use uflow.Bridge.RoundTrip.{decode-encode, encode_iff}
use uflow.Bridge.Canonical.{encode-decode}
use uflow.Bridge.Stream.{write_to, read_from, read_from-write_to}
use uflow.Bridge.Replay.{cached, conflict, observe, remember, fingerprint, observe-remember}

abbrev probe_frame : BridgeFrame
unfolding request
probe_frame = request probe 7 9 (0x75 ∷ []) (0x6e ∷ []) (0x62 ∷ []) (0x73 ∷ []) 1 (0x70 ∷ 0x3d ∷ [])

probe_frame-IsTyped : IsTyped probe_frame
unfolding request valid_utf8
probe_frame-IsTyped = record {
  major_u16 = omega arith;
  minor_u16 = omega arith;
  flags_u16 = omega arith;
  request_u64 = omega arith;
  correlation_u64 = omega arith;
  generation_u64 = omega arith;
  status_i32 = omega arith;
  error_i32 = omega arith;
  realm_utf8 = refl;
  node_utf8 = refl;
  boot_utf8 = refl;
  session_utf8 = refl;
  body_bytes = omega arith;
}

probe_encoded : encode probe_frame ≡ ok (frame_bytes probe_frame)
unfolding encode validate check_identity is_empty request
probe_encoded = refl

probe_bytes-IsByte : All (λ b. b < 256) (frame_bytes probe_frame)
unfolding frame_bytes to_be_bytes to_u16 checksum64 request
probe_bytes-IsByte = omega arith

decodes_probe : decode (frame_bytes probe_frame) ≡ ok probe_frame
unfolding decode read_frame read_header read_string read_body check_lengths ◌>>=◌ take_be take_bytes
    frame_bytes to_be_bytes from_be_bytes to_u16 try_from checksum64 request valid_utf8 bytes_beq
    validate check_identity is_empty
decodes_probe = refl

decode-encode_example : decode (frame_bytes probe_frame) ≡ ok probe_frame
decode-encode_example =
    decode-encode probe_frame (frame_bytes probe_frame) probe_frame-IsTyped probe_encoded

encode-decode_example : encode probe_frame ≡ ok (frame_bytes probe_frame)
encode-decode_example =
    encode-decode (frame_bytes probe_frame) probe_frame probe_bytes-IsByte decodes_probe

encode_iff_example :
    ((encode probe_frame ≡ ok (frame_bytes probe_frame)) ↔ IsValid probe_frame)
    × ((x : ProtocolError) → (encode probe_frame ≡ err x) ↔ (validate probe_frame ≡ err x))
encode_iff_example = encode_iff probe_frame

read_from-write_to_example :
    read_from
      ((to_be_bytes 4 (length (frame_bytes probe_frame)) ++ frame_bytes probe_frame) ++ (5 ∷ []))
    ≡ ok (probe_frame, 5 ∷ [])
unfolding write_to encode validate check_identity is_empty request
read_from-write_to_example = read_from-write_to probe_frame (5 ∷ []) _ probe_frame-IsTyped refl

abbrev other_frame : BridgeFrame
other_frame = record probe_frame { body = 1 ∷ [] }

observe-remember_example : observe (remember [] probe_frame (4 ∷ [])) other_frame ≡ (
    if probe_frame.request_id == other_frame.request_id
    then (if fingerprint probe_frame == fingerprint other_frame then cached (4 ∷ []) else conflict)
    else observe [] other_frame)
observe-remember_example = observe-remember [] probe_frame other_frame (4 ∷ [])
