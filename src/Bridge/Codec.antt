-- ===== src/Bridge/Codec.antt =====
-- `BridgeFrame::encode` and `BridgeFrame::decode` of crates/uf-core/src/bridge.rs.
use uflow.Prelude.{
  ℕ, ◌+◌, List, [], ◌∷◌, ◌++◌, not, Result, ok, err, fail_if, length, take, drop, ltb, ◌==◌,
  if◌then◌else◌, bytes_beq, checked_add, Option, none, some,
}
use uflow.Prelude.Text.{Str, valid_utf8}
use uflow.Bridge.Wire.{
  ProtocolError, truncated, bad_magic, invalid_length, bad_checksum, invalid_utf8,
  unsupported_major, oversized_body, to_be_bytes, checksum64,
}
use uflow.Bridge.Reader.{Reader, ◌>>=◌, ◌>>◌, return, lift, take_bytes, take_be}
use uflow.Bridge.Frame.{
  BridgeFrame, MessageType, bridge_magic, bridge_protocol_major, bridge_max_body_bytes,
  fixed_header_bytes, to_u16, try_from, validate,
}

-- The chunks that `encode` appends to its output, in their order.
abbrev pub header_chunks : BridgeFrame → List (List ℕ)
header_chunks f =
    bridge_magic
    ∷ to_be_bytes 2 f.protocol_major
    ∷ to_be_bytes 2 f.protocol_minor
    ∷ to_be_bytes 2 (to_u16 f.message_type)
    ∷ to_be_bytes 2 f.flags
    ∷ to_be_bytes 8 f.request_id
    ∷ to_be_bytes 8 f.correlation_id
    ∷ to_be_bytes 8 f.session_generation
    ∷ to_be_bytes 4 (length f.body)
    ∷ to_be_bytes 4 f.status
    ∷ to_be_bytes 4 f.error_code
    ∷ to_be_bytes 8 (checksum64 f.body)
    ∷ to_be_bytes 2 (length f.execution_realm_id)
    ∷ to_be_bytes 2 (length f.node_id)
    ∷ to_be_bytes 2 (length f.boot_id)
    ∷ to_be_bytes 2 (length f.provider_session_id)
    ∷ []

abbrev pub variable_chunks : BridgeFrame → List (List ℕ)
variable_chunks f =
    f.execution_realm_id ∷ f.node_id ∷ f.boot_id ∷ f.provider_session_id ∷ f.body ∷ []

-- Appending every chunk, then `rest`.
abbrev pub extend_all : List (List ℕ) → List ℕ → List ℕ
extend_all [] rest = rest
extend_all (c ∷ cs) rest = c ++ extend_all cs rest

unfoldable pub frame_bytes : BridgeFrame → List ℕ
frame_bytes f = extend_all (header_chunks f) (extend_all (variable_chunks f) [])

unfoldable pub encode : BridgeFrame → Result ProtocolError (List ℕ)
encode f = elim (validate f) [ ok _ ↦ ok (frame_bytes f) | err e ↦ err e ]

pub record Header : Type 0 where
  pub major : ℕ
  pub minor : ℕ
  pub message : MessageType
  pub flags : ℕ
  pub request_id : ℕ
  pub correlation_id : ℕ
  pub generation : ℕ
  pub body_len : ℕ
  pub status : ℕ
  pub error_code : ℕ
  pub expected_checksum : ℕ
  pub realm_len : ℕ
  pub node_len : ℕ
  pub boot_len : ℕ
  pub session_len : ℕ

-- The fixed part of a frame, from the magic to the four lengths.
unfoldable pub read_header : Reader Header
read_header = do
  magic ← take_bytes 8
  lift (fail_if (not (bytes_beq magic bridge_magic)) bad_magic)
  major ← take_be 2
  minor ← take_be 2
  kind ← take_be 2
  message ← lift (try_from kind)
  flags ← take_be 2
  request_id ← take_be 8
  correlation_id ← take_be 8
  generation ← take_be 8
  body_len ← take_be 4
  status ← take_be 4
  error_code ← take_be 4
  expected_checksum ← take_be 8
  realm_len ← take_be 2
  node_len ← take_be 2
  boot_len ← take_be 2
  session_len ← take_be 2
  return (record {
    major = major;
    minor = minor;
    message = message;
    flags = flags;
    request_id = request_id;
    correlation_id = correlation_id;
    generation = generation;
    body_len = body_len;
    status = status;
    error_code = error_code;
    expected_checksum = expected_checksum;
    realm_len = realm_len;
    node_len = node_len;
    boot_len = boot_len;
    session_len = session_len;
  })

-- `cursor.checked_add(variable_len).and_then(|value| value.checked_add(body_len))`
unfoldable pub end_of_frame : ℕ → ℕ → ℕ → Option ℕ
end_of_frame cursor variable_len body_len = elim (checked_add cursor variable_len) [
  | none ↦ none
  | some value ↦ checked_add value body_len
]

-- The checks between the header and the variable part.
unfoldable pub check_lengths : Header → Reader (Unit {0})
unfolding end_of_frame
check_lengths h bytes cursor =
    if not (h.major == bridge_protocol_major)
    then err (unsupported_major h.major)
    else if ltb bridge_max_body_bytes h.body_len
    then err (oversized_body h.body_len)
    else (elim (end_of_frame cursor (h.realm_len + h.node_len + h.boot_len + h.session_len)
        h.body_len) [
          | none ↦ err invalid_length
          | some end ↦ if end == length bytes then ok (tt, cursor) else err invalid_length
        ])

-- One round of the loop that slices the strings out: `bytes[cursor..cursor + length]`.
unfoldable pub read_string : ℕ → Reader Str
read_string n bytes cursor =
    let slice = take n (drop cursor bytes) in
    if valid_utf8 slice then ok (slice, cursor + n) else err invalid_utf8

-- `bytes[cursor..]`
unfoldable pub read_body : Reader (List ℕ)
read_body bytes cursor = ok (drop cursor bytes, length bytes)

unfoldable pub read_frame : Reader BridgeFrame
read_frame = do
  h ← read_header
  check_lengths h
  realm ← read_string h.realm_len
  node ← read_string h.node_len
  boot ← read_string h.boot_len
  session ← read_string h.session_len
  body ← read_body
  lift (fail_if (not (checksum64 body == h.expected_checksum)) bad_checksum)
  let frame : BridgeFrame = record {
    protocol_major = h.major;
    protocol_minor = h.minor;
    message_type = h.message;
    flags = h.flags;
    request_id = h.request_id;
    correlation_id = h.correlation_id;
    execution_realm_id = realm;
    node_id = node;
    boot_id = boot;
    provider_session_id = session;
    session_generation = h.generation;
    status = h.status;
    error_code = h.error_code;
    body = body;
  }
  lift (validate frame)
  return frame

unfoldable pub decode : List ℕ → Result ProtocolError BridgeFrame
decode bytes =
    if ltb (length bytes) fixed_header_bytes
    then err truncated
    else (elim (read_frame bytes 0) [ ok (frame, _) ↦ ok frame | err e ↦ err e ])
