-- ===== src/Bridge/RoundTrip.antt =====
-- Decoding what `BridgeFrame::encode` of crates/uf-core/src/bridge.rs wrote.
use uflow.Prelude.{
  drop-length, ℕ, ◌+◌, ◌<◌, ◌≡◌, refl, ap, List, [], ◌∷◌, ◌++◌, true, ok, err, arith, u64_mod,
  length, length-append, bytes_beq, Result-cases, inl, inr, ==_refl, append-nil, ◌↔◌,
}
use uflow.Prelude.Text.{valid_utf8}
use uflow.Bridge.Wire.{ProtocolError, checksum64}
use uflow.Bridge.Frame.{BridgeFrame, IsTyped, bridge_magic, fixed_header_bytes, to_u16, validate}
use uflow.Bridge.Validity.{
  IsValid, validate_complete, validate_sound, try_from-to_u16, to_u16-lt, checksum64-lt,
}
use uflow.Bridge.Codec.{
  Header, header_chunks, variable_chunks, extend_all, frame_bytes, encode, read_header,
  check_lengths, end_of_frame, read_string, read_body, read_frame, decode,
}
use uflow.Bridge.Reads.{
  Reads, Reads-bind, Reads-lift, Reads-bytes, Reads-be, At-take, At-advance, length-to_be_bytes,
}

header_of : BridgeFrame → Header
header_of f = record {
  major = f.protocol_major;
  minor = f.protocol_minor;
  message = f.message_type;
  flags = f.flags;
  request_id = f.request_id;
  correlation_id = f.correlation_id;
  generation = f.session_generation;
  body_len = length f.body;
  status = f.status;
  error_code = f.error_code;
  expected_checksum = checksum64 f.body;
  realm_len = length f.execution_realm_id;
  node_len = length f.node_id;
  boot_len = length f.boot_id;
  session_len = length f.provider_session_id;
}

abbrev total_length : List (List ℕ) → ℕ
total_length [] = 0
total_length (c ∷ cs) = length c + total_length cs

length-extend_all :
    (cs : List (List ℕ)) (rest : List ℕ)
    → length (extend_all cs rest) ≡ total_length cs + length rest
length-extend_all [] rest = omega arith
length-extend_all (c ∷ cs) rest =
    omega (arith, length-append c (extend_all cs rest), length-extend_all cs rest)

length-variable :
    (f : BridgeFrame)
    → length (extend_all (variable_chunks f) [])
      ≡ length f.execution_realm_id
        + length f.node_id
        + length f.boot_id
        + length f.provider_session_id
        + length f.body
length-variable f = omega (arith, length-extend_all (variable_chunks f) [])

-- A frame is its fixed header and the five variable parts.
pub length-frame_bytes :
    (f : BridgeFrame)
    → length (frame_bytes f)
      ≡ fixed_header_bytes
        + length f.execution_realm_id
        + length f.node_id
        + length f.boot_id
        + length f.provider_session_id
        + length f.body
unfolding frame_bytes
length-frame_bytes f = omega (
  arith,
  length-extend_all (header_chunks f) (extend_all (variable_chunks f) []),
  length-variable f,
  length-to_be_bytes,
)

module _ (bytes : List ℕ) (fits : length bytes < u64_mod) (f : BridgeFrame) where
  Reads-header :
      (s : List ℕ)
      → IsTyped f
      → IsValid f
      → Reads bytes read_header (extend_all (header_chunks f) s) (header_of f) s
  unfolding read_header bytes_beq header_of
  Reads-header s t v = Reads-bind _ (Reads-bytes bytes fits bridge_magic _) (
      Reads-bind _ (Reads-lift {0} bytes _ _ tt refl) (
        Reads-bind _ (Reads-be bytes fits 2 f.protocol_major _ t.major_u16) (
          Reads-bind _ (Reads-be bytes fits 2 f.protocol_minor _ t.minor_u16) (
            Reads-bind _
              (Reads-be bytes fits 2 (to_u16 f.message_type) _ (to_u16-lt f.message_type))
              (Reads-bind _ (Reads-lift bytes _ _ f.message_type (try_from-to_u16 f.message_type)) (
                Reads-bind _ (Reads-be bytes fits 2 f.flags _ t.flags_u16) (
                  Reads-bind _ (Reads-be bytes fits 8 f.request_id _ t.request_u64) (
                    Reads-bind _ (Reads-be bytes fits 8 f.correlation_id _ t.correlation_u64) (
                      Reads-bind _ (Reads-be bytes fits 8 f.session_generation _ t.generation_u64) (
                        Reads-bind _
                          (Reads-be bytes fits 4 (length f.body) _ (omega (arith, v.body_fits)))
                          (Reads-bind _ (Reads-be bytes fits 4 f.status _ t.status_i32) (
                            Reads-bind _ (Reads-be bytes fits 4 f.error_code _ t.error_i32) (
                              Reads-bind _
                                (Reads-be bytes fits 8 (checksum64 f.body) _ (checksum64-lt f.body))
                                (Reads-bind _
                                  (Reads-be bytes fits 2 (length f.execution_realm_id) _
                                    (omega (arith, v.realm.short)))
                                  (Reads-bind _
                                    (Reads-be bytes fits 2 (length f.node_id) _
                                      (omega (arith, v.node.short)))
                                    (Reads-bind _
                                      (Reads-be bytes fits 2 (length f.boot_id) _
                                        (omega (arith, v.boot.short)))
                                      (Reads-bind _
                                        (Reads-be bytes fits 2 (length f.provider_session_id) _
                                          (omega (arith, v.session.short)))
                                        (Reads-lift bytes _ _ (header_of f) refl))))))))))))))))))

  Reads-string :
      (value s : List ℕ)
      → valid_utf8 value ≡ true
      → Reads bytes (read_string (length value)) (value ++ s) value s
  unfolding read_string
  Reads-string value s h = record {
    run = λ c at.
        (c + length value, rw (At-take bytes c value s at, h), At-advance bytes c value s at);
  }

  Reads-body : (s : List ℕ) → Reads bytes read_body s s []
  unfolding read_body
  Reads-body s = record {
    run = λ c at. (
      length bytes,
      ap (λ (b : List ℕ). ok (b, length bytes)) at.0,
      (drop-length bytes, omega arith),
    );
  }

  Reads-lengths :
      IsValid f
      → Reads bytes
          (check_lengths (header_of f))
          (extend_all (variable_chunks f) [])
          tt
          (extend_all (variable_chunks f) [])
  unfolding check_lengths header_of end_of_frame
  Reads-lengths v = record {
    run = λ c at. (c, ground (arith, at.1, length-variable f, v.major), at);
  }

  Reads-last : Reads bytes read_body (f.body ++ []) f.body []
  Reads-last = rw (append-nil f.body) (Reads-body f.body)

  Reads-frame : IsTyped f → IsValid f → Reads bytes read_frame (frame_bytes f) f []
  unfolding read_frame frame_bytes header_of
  Reads-frame t v = Reads-bind _ (Reads-header _ t v) (
      Reads-bind _ (Reads-lengths v) (
        Reads-bind _ (Reads-string f.execution_realm_id _ t.realm_utf8) (
          Reads-bind _ (Reads-string f.node_id _ t.node_utf8) (
            Reads-bind _ (Reads-string f.boot_id _ t.boot_utf8) (
              Reads-bind _ (Reads-string f.provider_session_id _ t.session_utf8) (
                Reads-bind _ Reads-last (
                  Reads-bind _ (Reads-lift bytes _ _ tt (rw (==_refl (checksum64 f.body)))) (
                    Reads-bind _ (Reads-lift bytes _ _ tt (validate_complete f v))
                      (Reads-lift bytes _ (ok f) f refl)))))))))

pub encode-eq-ok :
    (f : BridgeFrame) {bytes : List ℕ} → encode f ≡ ok bytes → IsValid f × (frame_bytes f ≡ bytes)
unfolding encode
encode-eq-ok f e = elim (Result-cases (validate f)) [
  | inl (tt, v) ↦ (validate_sound f v, ground (arith, v))
  | inr (x, v) ↦ absurd (ground (arith, v))
]

frame_fits : (f : BridgeFrame) → IsValid f → length (frame_bytes f) < u64_mod
frame_fits f v =
    omega (arith, length-frame_bytes f, v.realm, v.node, v.boot, v.session, v.body_fits)

-- Decoding the bytes that `encode` wrote for a frame whose fields have their Rust types gives the
-- frame back.
pub decode-encode :
    (f : BridgeFrame) (bytes : List ℕ) → IsTyped f → encode f ≡ ok bytes → decode bytes ≡ ok f
unfolding decode
decode-encode f bytes t e =
    let (v, same) = encode-eq-ok f e in
    let (d, r, _) =
      (Reads-frame (frame_bytes f) (frame_fits f v) f t v).run 0 (refl, omega arith) in
    rw (← same) (ground (arith, r, length-frame_bytes f))

-- `encode` succeeds on a frame exactly if the frame is valid, and then writes its chunks in order: it fails with an
-- error exactly if `validate` does so.
pub encode_iff :
    (f : BridgeFrame)
    → ((encode f ≡ ok (frame_bytes f)) ↔ IsValid f)
      × ((x : ProtocolError) → (encode f ≡ err x) ↔ (validate f ≡ err x))
unfolding encode
encode_iff f = (
  (λ e. (encode-eq-ok f e).0, λ v. rw (validate_complete f v, encode)),
  λ x. (λ e. fails x e, λ e. rw (e, encode)),
)
  where
    fails : (x : ProtocolError) → encode f ≡ err x → validate f ≡ err x
    fails x e = elim (Result-cases (validate f)) [
      | inl (_, v) ↦ absurd (ground (arith, v))
      | inr (y, v) ↦ ground (arith, v)
    ]
