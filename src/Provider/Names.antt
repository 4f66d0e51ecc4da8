-- ===== src/Provider/Names.antt =====
-- The names of the enumerations of crates/uf-core/src/provider.rs, as they stand in replies and counters.
use uflow.Prelude.{
  ◌≡◌, refl, sym, ap, ◌∙◌, List, [], ◌∷◌, Option, none, some, bytes_beq, if◌then◌else◌,
}
use uflow.Prelude.Text.{Str, text}
use uflow.Provider.Types.{ErrorCode, ProviderKind, Fidelity, Addressability, ProviderHealth}
use uflow.Provider.Operation.{OperationKind, as_str}
use uflow.Provider.Completion.{CompletionState}

pub data ExecutionMode : Type 0 where
  physical simulated : ExecutionMode

-- `ExecutionMode::as_str`
unfoldable pub execution_mode_as_str : ExecutionMode → Str
execution_mode_as_str ExecutionMode.physical = text "physical"
execution_mode_as_str ExecutionMode.simulated = text "simulated"

-- `ProviderKind::as_str`
unfoldable pub provider_kind_as_str : ProviderKind → Str
provider_kind_as_str ProviderKind.local = text "local"
provider_kind_as_str ProviderKind.remote = text "remote"
provider_kind_as_str ProviderKind.simulator = text "simulator"
provider_kind_as_str ProviderKind.mock = text "mock"

-- `Fidelity::as_str`
unfoldable pub fidelity_as_str : Fidelity → Str
fidelity_as_str Fidelity.physical = text "physical"
fidelity_as_str Fidelity.functional = text "functional"
fidelity_as_str Fidelity.semantic = text "semantic"

-- `Addressability::as_str`
unfoldable pub addressability_as_str : Addressability → Str
addressability_as_str Addressability.locally_addressable = text "locally_addressable"
addressability_as_str Addressability.provider_only = text "provider_only"
addressability_as_str Addressability.remote_mapping = text "remote_mapping"
addressability_as_str Addressability.block_descriptor = text "block_descriptor"

pub data AccessKind : Type 0 where
  local remote_map : AccessKind

-- `AccessKind::as_str`
unfoldable pub access_kind_as_str : AccessKind → Str
access_kind_as_str AccessKind.local = text "local"
access_kind_as_str AccessKind.remote_map = text "remote_map"

pub data TransportKind : Type 0 where
  local ub_shmem obmm_gsva file : TransportKind

-- `TransportKind::as_str`
unfoldable pub transport_kind_as_str : TransportKind → Str
transport_kind_as_str TransportKind.local = text "local"
transport_kind_as_str TransportKind.ub_shmem = text "ub_shmem"
transport_kind_as_str TransportKind.obmm_gsva = text "obmm_gsva"
transport_kind_as_str TransportKind.file = text "file"

-- `ProviderHealth::as_str`
unfoldable pub health_as_str : ProviderHealth → Str
health_as_str ProviderHealth.ready = text "ready"
health_as_str ProviderHealth.degraded = text "degraded"
health_as_str ProviderHealth.not_ready = text "not_ready"
health_as_str ProviderHealth.unavailable = text "unavailable"

-- `ProviderCompletionState::as_str`
unfoldable pub completion_state_as_str : CompletionState → Str
completion_state_as_str CompletionState.submitted = text "submitted"
completion_state_as_str CompletionState.running = text "running"
completion_state_as_str CompletionState.complete = text "complete"
completion_state_as_str CompletionState.failed = text "failed"
completion_state_as_str CompletionState.canceled = text "canceled"

-- `ProviderErrorCode::as_str`
unfoldable pub error_code_as_str : ErrorCode → Str
error_code_as_str ErrorCode.provider_unavailable = text "ProviderUnavailable"
error_code_as_str ErrorCode.provider_not_ready = text "ProviderNotReady"
error_code_as_str ErrorCode.provider_version_mismatch = text "ProviderVersionMismatch"
error_code_as_str ErrorCode.provider_operation_unsupported = text "ProviderOperationUnsupported"
error_code_as_str ErrorCode.provider_session_restarted = text "ProviderSessionRestarted"
error_code_as_str ErrorCode.provider_protocol_error = text "ProviderProtocolError"
error_code_as_str ErrorCode.provider_resource_not_found = text "ProviderResourceNotFound"
error_code_as_str ErrorCode.provider_resource_stale = text "ProviderResourceStale"
error_code_as_str ErrorCode.handle_not_locally_addressable = text "HandleNotLocallyAddressable"
error_code_as_str ErrorCode.descriptor_malformed = text "DescriptorMalformed"
error_code_as_str ErrorCode.access_denied = text "AccessDenied"
error_code_as_str ErrorCode.range_out_of_bounds = text "RangeOutOfBounds"
error_code_as_str ErrorCode.checksum_mismatch = text "ChecksumMismatch"
error_code_as_str ErrorCode.queue_full = text "QueueFull"
error_code_as_str ErrorCode.timeout = text "Timeout"
error_code_as_str ErrorCode.cancel_unsupported = text "CancelUnsupported"
error_code_as_str ErrorCode.cross_realm_transfer_unsupported = text "CrossRealmTransferUnsupported"
error_code_as_str ErrorCode.internal_provider_adapter_error = text "InternalProviderAdapterError"

-- The value with the name, in a list of values.
unfoldable named : {A : Type 0} → (A → Str) → Str → List A → Option A
named name s [] = none
named name s (a ∷ others) =
    let later = named name s others in if bytes_beq (name a) s then some a else later

abbrev all_error_codes : List ErrorCode
all_error_codes =
    ErrorCode.provider_unavailable ∷ ErrorCode.provider_not_ready
    ∷ ErrorCode.provider_version_mismatch ∷ ErrorCode.provider_operation_unsupported
    ∷ ErrorCode.provider_session_restarted ∷ ErrorCode.provider_protocol_error
    ∷ ErrorCode.provider_resource_not_found ∷ ErrorCode.provider_resource_stale
    ∷ ErrorCode.handle_not_locally_addressable ∷ ErrorCode.descriptor_malformed
    ∷ ErrorCode.access_denied ∷ ErrorCode.range_out_of_bounds ∷ ErrorCode.checksum_mismatch
    ∷ ErrorCode.queue_full ∷ ErrorCode.timeout ∷ ErrorCode.cancel_unsupported
    ∷ ErrorCode.cross_realm_transfer_unsupported ∷ ErrorCode.internal_provider_adapter_error ∷ []

abbrev all_operations : List OperationKind
all_operations =
    OperationKind.allocate ∷ OperationKind.release ∷ OperationKind.publish ∷ OperationKind.import
    ∷ OperationKind.revoke ∷ OperationKind.checksum ∷ OperationKind.copy ∷ OperationKind.read
    ∷ OperationKind.write ∷ []

some_injective : {A : Type 0} (a b : A) → some a ≡ some b → a ≡ b
some_injective a b e = ap (λ o. elim o [ none ↦ a | some x ↦ x ]) e

error_named :
    (c : ErrorCode) → named error_code_as_str (error_code_as_str c) all_error_codes ≡ some c
unfolding named error_code_as_str text bytes_beq
error_named ErrorCode.provider_unavailable = refl
error_named ErrorCode.provider_not_ready = refl
error_named ErrorCode.provider_version_mismatch = refl
error_named ErrorCode.provider_operation_unsupported = refl
error_named ErrorCode.provider_session_restarted = refl
error_named ErrorCode.provider_protocol_error = refl
error_named ErrorCode.provider_resource_not_found = refl
error_named ErrorCode.provider_resource_stale = refl
error_named ErrorCode.handle_not_locally_addressable = refl
error_named ErrorCode.descriptor_malformed = refl
error_named ErrorCode.access_denied = refl
error_named ErrorCode.range_out_of_bounds = refl
error_named ErrorCode.checksum_mismatch = refl
error_named ErrorCode.queue_full = refl
error_named ErrorCode.timeout = refl
error_named ErrorCode.cancel_unsupported = refl
error_named ErrorCode.cross_realm_transfer_unsupported = refl
error_named ErrorCode.internal_provider_adapter_error = refl

operation_named : (k : OperationKind) → named as_str (as_str k) all_operations ≡ some k
unfolding named as_str text bytes_beq
operation_named OperationKind.allocate = refl
operation_named OperationKind.release = refl
operation_named OperationKind.publish = refl
operation_named OperationKind.import = refl
operation_named OperationKind.revoke = refl
operation_named OperationKind.checksum = refl
operation_named OperationKind.copy = refl
operation_named OperationKind.read = refl
operation_named OperationKind.write = refl

-- No two error codes have the same name in a reply.
pub error_code_as_str-injective :
    (a b : ErrorCode) → error_code_as_str a ≡ error_code_as_str b → a ≡ b
error_code_as_str-injective a b e =
    some_injective a b
      (sym (error_named a) ∙ ap (λ s. named error_code_as_str s all_error_codes) e ∙ error_named b)

-- No two kinds of operations have the same name, under which a provider counts them.
pub as_str-injective : (a b : OperationKind) → as_str a ≡ as_str b → a ≡ b
as_str-injective a b e =
    some_injective a b
      (sym (operation_named a) ∙ ap (λ s. named as_str s all_operations) e ∙ operation_named b)
