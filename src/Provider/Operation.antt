-- ===== src/Provider/Operation.antt =====
-- The operations of crates/uf-core/src/provider.rs, and which of them a provider supports.
use uflow.Prelude.{ℕ, List, [], ◌∷◌, Bool, false, ◌||◌, ◌==◌}
use uflow.Prelude.Text.{Str, text}
use uflow.Provider.Types.{Addressability, AccessRef, Descriptor, ResourceRef}

pub data OperationKind : Type 0 where
  allocate release publish import revoke checksum copy read write : OperationKind

pub data Operation : Type 0 where
  allocate : (size_bytes alignment_bytes : ℕ) (medium node_id : Str) → Operation
  release : ResourceRef → Operation
  initialize_deterministic : ResourceRef → (offset_bytes nbytes seed_id : ℕ) → Operation
  publish : ResourceRef → (offset_bytes nbytes : ℕ) (access_mode : Str) → Operation
  import :
      Descriptor
      → (accessor_node_id : Str) (offset_bytes nbytes : ℕ) (access_mode : Str) → Operation
  revoke : AccessRef → Operation
  checksum_resource : ResourceRef → (offset_bytes nbytes : ℕ) → Operation
  checksum_access : AccessRef → (offset_bytes nbytes : ℕ) → Operation
  copy :
      (source destination : ResourceRef) (source_offset_bytes destination_offset_bytes nbytes : ℕ)
      → Operation

-- `ProviderOperation::kind`
unfoldable pub kind : Operation → OperationKind
kind (Operation.allocate _ _ _ _) = OperationKind.allocate
kind (Operation.release _) = OperationKind.release
kind (initialize_deterministic _ _ _ _) = write
kind (Operation.publish _ _ _ _) = OperationKind.publish
kind (Operation.import _ _ _ _ _) = OperationKind.import
kind (Operation.revoke _) = OperationKind.revoke
kind (checksum_resource _ _ _) = checksum
kind (checksum_access _ _ _) = checksum
kind (Operation.copy _ _ _ _ _) = OperationKind.copy

-- The place of a kind in the enumeration, by which the kinds are compared.
kind_index : OperationKind → ℕ
kind_index OperationKind.allocate = 0
kind_index OperationKind.release = 1
kind_index OperationKind.publish = 2
kind_index OperationKind.import = 3
kind_index OperationKind.revoke = 4
kind_index checksum = 5
kind_index OperationKind.copy = 6
kind_index read = 7
kind_index write = 8

-- `self == other` on `ProviderOperationKind`
unfoldable pub same_kind : OperationKind → OperationKind → Bool
unfolding kind_index
same_kind a b = kind_index a == kind_index b

-- `ProviderOperationKind::as_str`
unfoldable pub as_str : OperationKind → Str
as_str OperationKind.allocate = text "allocate"
as_str OperationKind.release = text "release"
as_str OperationKind.publish = text "publish"
as_str OperationKind.import = text "import"
as_str OperationKind.revoke = text "revoke"
as_str checksum = text "checksum"
as_str OperationKind.copy = text "copy"
as_str read = text "read"
as_str write = text "write"

pub record ProviderCapabilities : Type 0 where
  pub supported_operations : List OperationKind
  pub max_transfer_bytes : ℕ
  pub alignment_bytes : ℕ
  pub queue_depth : ℕ
  pub addressability : Addressability
  pub limitations : List Str

unfoldable pub contains : OperationKind → List OperationKind → Bool
contains a [] = false
contains a (b ∷ bs) = same_kind a b || contains a bs

-- `ProviderCapabilities::supports`
unfoldable pub supports : ProviderCapabilities → OperationKind → Bool
unfolding contains same_kind
supports c a = contains a c.supported_operations
