-- ===== src/Bridge/Frame.antt =====
-- `BridgeMessageType`, `BridgeFrame` and its validation in crates/uf-core/src/bridge.rs.
use uflow.Prelude.{
  ℕ, ◌<◌, ◌≡◌, List, [], ◌∷◌, Bool, not, ◌||◌, Result, ok, err, fail_if, ◌>>◌, length, ltb, ◌==◌,
  if◌then◌else◌, All,
}
use uflow.Prelude.Text.{Str, text, is_empty, valid_utf8}
use uflow.Bridge.Wire.{
  ProtocolError, invalid_length, unsupported_major, unknown_message_type, oversized_body,
  missing_identity_field,
}

-- `BRIDGE_MAGIC`
abbrev pub bridge_magic : List ℕ
bridge_magic = 0x55 ∷ 0x46 ∷ 0x53 ∷ 0x49 ∷ 0x4d ∷ 0x42 ∷ 0x30 ∷ 0x31 ∷ []

abbrev pub bridge_protocol_major : ℕ
bridge_protocol_major = 1

abbrev pub bridge_protocol_minor : ℕ
bridge_protocol_minor = 0

abbrev pub bridge_max_body_bytes : ℕ
bridge_max_body_bytes = 0x1_0000

abbrev pub fixed_header_bytes : ℕ
fixed_header_bytes = 68

abbrev pub u16_max : ℕ
u16_max = 0xffff

pub data MessageType : Type 0 where
  identity probe allocate release initialize_deterministic publish import : MessageType
  revoke checksum completion error shutdown accepted : MessageType

-- `message_type as u16`
unfoldable pub to_u16 : MessageType → ℕ
to_u16 identity = 1
to_u16 probe = 2
to_u16 allocate = 3
to_u16 release = 4
to_u16 initialize_deterministic = 5
to_u16 publish = 6
to_u16 import = 7
to_u16 revoke = 8
to_u16 checksum = 9
to_u16 completion = 10
to_u16 error = 11
to_u16 shutdown = 12
to_u16 accepted = 13

-- `BridgeMessageType::try_from`
unfoldable pub try_from : ℕ → Result ProtocolError MessageType
try_from value =
    if value == 1
    then ok identity
    else if value == 2
    then ok probe
    else if value == 3
    then ok allocate
    else if value == 4
    then ok release
    else if value == 5
    then ok initialize_deterministic
    else if value == 6
    then ok publish
    else if value == 7
    then ok import
    else if value == 8
    then ok revoke
    else if value == 9
    then ok checksum
    else if value == 10
    then ok completion
    else if value == 11
    then ok error
    else if value == 12
    then ok shutdown
    else if value == 13
    then ok accepted
    else err (unknown_message_type value)

-- The `i32` fields are kept as their 32-bit patterns: the bridge only stores and sends them.
pub record BridgeFrame : Type 0 where
  pub protocol_major : ℕ
  pub protocol_minor : ℕ
  pub message_type : MessageType
  pub flags : ℕ
  pub request_id : ℕ
  pub correlation_id : ℕ
  pub execution_realm_id : Str
  pub node_id : Str
  pub boot_id : Str
  pub provider_session_id : Str
  pub session_generation : ℕ
  pub status : ℕ
  pub error_code : ℕ
  pub body : List ℕ

-- What the types of the fields promise in Rust.
pub record IsTyped (f : BridgeFrame) : Type 0 where
  pub major_u16 : f.protocol_major < 0x1_0000
  pub minor_u16 : f.protocol_minor < 0x1_0000
  pub flags_u16 : f.flags < 0x1_0000
  pub request_u64 : f.request_id < 0x1_0000_0000_0000_0000
  pub correlation_u64 : f.correlation_id < 0x1_0000_0000_0000_0000
  pub generation_u64 : f.session_generation < 0x1_0000_0000_0000_0000
  pub status_i32 : f.status < 0x1_0000_0000
  pub error_i32 : f.error_code < 0x1_0000_0000
  pub realm_utf8 : valid_utf8 f.execution_realm_id ≡ Bool.true
  pub node_utf8 : valid_utf8 f.node_id ≡ Bool.true
  pub boot_utf8 : valid_utf8 f.boot_id ≡ Bool.true
  pub session_utf8 : valid_utf8 f.provider_session_id ≡ Bool.true
  pub body_bytes : All (λ b. b < 256) f.body

-- `BridgeFrame::request`
unfoldable pub request : MessageType → ℕ → ℕ → Str → Str → Str → Str → ℕ → List ℕ → BridgeFrame
request message request_id correlation_id realm node boot session generation body = record {
  protocol_major = bridge_protocol_major;
  protocol_minor = bridge_protocol_minor;
  message_type = message;
  flags = 0;
  request_id = request_id;
  correlation_id = correlation_id;
  execution_realm_id = realm;
  node_id = node;
  boot_id = boot;
  provider_session_id = session;
  session_generation = generation;
  status = 0;
  error_code = 0;
  body = body;
}

-- One round of the loop over the identity fields.
unfoldable pub check_identity : Str → Str → Result ProtocolError (Unit {0})
check_identity name value = do
  fail_if (is_empty value) (missing_identity_field name)
  fail_if (ltb u16_max (length value)) invalid_length

unfoldable pub validate : BridgeFrame → Result ProtocolError (Unit {0})
validate f = do
  fail_if (not (f.protocol_major == bridge_protocol_major)) (unsupported_major f.protocol_major)
  fail_if (f.request_id == 0 || f.correlation_id == 0 || f.session_generation == 0) invalid_length
  check_identity (text "execution_realm_id") f.execution_realm_id
  check_identity (text "node_id") f.node_id
  check_identity (text "boot_id") f.boot_id
  check_identity (text "provider_session_id") f.provider_session_id
  fail_if (ltb bridge_max_body_bytes (length f.body)) (oversized_body (length f.body))
