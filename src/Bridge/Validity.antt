-- ===== src/Bridge/Validity.antt =====
-- The frames that `BridgeFrame::validate` of crates/uf-core/src/bridge.rs accepts, as a predicate.
use Prim.Native.Nat.{bit_xor, ◌*◌, ◌%◌}
use uflow.Prelude.{ℕ, ◌<◌, ◌≤◌, ◌≡◌, ◌≢◌, refl, List, [], ◌∷◌, ok, arith, u64_mod, length}
use uflow.Prelude.Text.{Str, text, is_empty}
use uflow.Bridge.Wire.{checksum64, checksum_from}
use uflow.Bridge.Frame.{
  BridgeFrame, MessageType, bridge_max_body_bytes, u16_max, to_u16, try_from, validate,
  check_identity,
}

pub record IsIdentity (value : Str) : Type 0 where
  pub nonempty : value ≢ []
  pub short : length value ≤ u16_max

-- The frames that `validate` lets through.
pub record IsValid (f : BridgeFrame) : Type 0 where
  pub major : f.protocol_major ≡ 1
  pub request_set : f.request_id ≢ 0
  pub correlation_set : f.correlation_id ≢ 0
  pub generation_set : f.session_generation ≢ 0
  pub realm : IsIdentity f.execution_realm_id
  pub node : IsIdentity f.node_id
  pub boot : IsIdentity f.boot_id
  pub session : IsIdentity f.provider_session_id
  pub body_fits : length f.body ≤ bridge_max_body_bytes

check_identity_sound : (name value : Str) → check_identity name value ≡ ok tt → IsIdentity value
unfolding check_identity is_empty
check_identity_sound name [] h = cc
check_identity_sound name (x ∷ xs) h = record { nonempty = λ e. cc; short = ground arith }

check_identity_complete : (name value : Str) → IsIdentity value → check_identity name value ≡ ok tt
unfolding check_identity is_empty
check_identity_complete name [] h = absurd (h.nonempty refl)
check_identity_complete name (x ∷ xs) h = ground (arith, h.short)

pub try_from-to_u16 : (m : MessageType) → try_from (to_u16 m) ≡ ok m
unfolding try_from to_u16
try_from-to_u16 m = ground arith

pub to_u16-lt : (m : MessageType) → to_u16 m < 0x1_0000
unfolding to_u16
to_u16-lt m = ground arith

checksum_from-lt : (hash : ℕ) (bs : List ℕ) → hash < u64_mod → checksum_from hash bs < u64_mod
unfolding checksum_from
checksum_from-lt hash [] h = h
checksum_from-lt hash (b ∷ bs) h =
    checksum_from-lt (bit_xor hash b * 0x100_0000_01b3 % u64_mod) bs (omega arith)

pub checksum64-lt : (bs : List ℕ) → checksum64 bs < u64_mod
unfolding checksum64
checksum64-lt bs = checksum_from-lt _ bs (omega arith)

pub validate_complete : (f : BridgeFrame) → IsValid f → validate f ≡ ok tt
unfolding validate
validate_complete f v = ground (
  arith,
  check_identity_complete (text "execution_realm_id") f.execution_realm_id v.realm,
  check_identity_complete (text "node_id") f.node_id v.node,
  check_identity_complete (text "boot_id") f.boot_id v.boot,
  check_identity_complete (text "provider_session_id") f.provider_session_id v.session,
  v.request_set,
  v.correlation_set,
  v.generation_set,
)

pub validate_sound : (f : BridgeFrame) → validate f ≡ ok tt → IsValid f
unfolding validate
validate_sound f h = ground (
  arith,
  check_identity_sound (text "execution_realm_id") f.execution_realm_id,
  check_identity_sound (text "node_id") f.node_id,
  check_identity_sound (text "boot_id") f.boot_id,
  check_identity_sound (text "provider_session_id") f.provider_session_id,
)
