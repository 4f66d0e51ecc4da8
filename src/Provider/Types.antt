-- ===== src/Provider/Types.antt =====
-- The references and errors of crates/uf-core/src/provider.rs.
use uflow.Prelude.{ℕ, List, Option, none}
use uflow.Prelude.Text.{Str}

pub data ProviderKind : Type 0 where
  local remote simulator mock : ProviderKind

pub data Fidelity : Type 0 where
  physical functional semantic : Fidelity

pub data Addressability : Type 0 where
  locally_addressable provider_only remote_mapping block_descriptor : Addressability

pub data ProviderHealth : Type 0 where
  ready degraded not_ready unavailable : ProviderHealth

pub record ProviderIdentity : Type 0 where
  pub provider_api_major : ℕ
  pub provider_api_minor : ℕ
  pub provider_id : Str
  pub provider_kind : ProviderKind
  pub adapter_revision : Str
  pub external_platform_revision : Str
  pub external_protocol_revision : Str
  pub execution_realm_id : Str
  pub node_id : Str
  pub session_id : Str
  pub boot_id : Str
  pub session_generation : ℕ
  pub fidelity : Fidelity
  pub limitations : List Str

pub record ResourceRef : Type 0 where
  pub provider_resource_id : Str
  pub resource_generation : ℕ
  pub size_bytes : ℕ
  pub allowed_offset_bytes : ℕ
  pub allowed_bytes : ℕ
  pub addressability : Addressability
  pub opaque_token : List ℕ

pub record Descriptor : Type 0 where
  pub schema_major : ℕ
  pub schema_minor : ℕ
  pub provider_id : Str
  pub provider_session_id : Str
  pub resource_generation : ℕ
  pub allowed_offset_bytes : ℕ
  pub allowed_bytes : ℕ
  pub access_mode : Str
  pub opaque_bytes : List ℕ

pub record AccessRef : Type 0 where
  pub accessor_provider_id : Str
  pub accessor_provider_session_id : Str
  pub accessor_resource_id : Str
  pub access_generation : ℕ
  pub source_resource_generation : ℕ
  pub allowed_offset_bytes : ℕ
  pub allowed_bytes : ℕ
  pub access_mode : Str
  pub addressability : Addressability
  pub opaque_token : List ℕ

pub data ErrorCode : Type 0 where
  provider_unavailable provider_not_ready provider_version_mismatch : ErrorCode
  provider_operation_unsupported provider_session_restarted provider_protocol_error : ErrorCode
  provider_resource_not_found provider_resource_stale handle_not_locally_addressable : ErrorCode
  descriptor_malformed access_denied range_out_of_bounds checksum_mismatch queue_full : ErrorCode
  timeout cancel_unsupported cross_realm_transfer_unsupported : ErrorCode
  internal_provider_adapter_error : ErrorCode

-- The `i64` of an external code is kept as its bit pattern.
pub record ProviderError : Type 0 where
  pub code : ErrorCode
  pub detail : Str
  pub external_code : Option ℕ

-- `ProviderError::new`
abbrev pub provider_error : ErrorCode → Str → ProviderError
provider_error code detail = record { code = code; detail = detail; external_code = none }
