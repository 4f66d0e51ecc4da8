-- ===== src/Mock/Execute.antt =====
-- `MockProvider::execute` of crates/uf-daemon/src/providers/mock.rs, a handler to a definition.
-- A handler that fails has not changed the state: each makes its checks before its writes.
use uflow.Prelude.{
  ℕ, ◌+◌, ◌%◌, [], Bool, not, ◌&&◌, ◌||◌, Result, ok, ◌>>=◌, ◌>>◌, fail_if, ◌==◌, ltb,
  if◌then◌else◌, Option, none, some, length, replicate, wrapping_inc, u64_mod, bytes_beq, bytes_key,
}
use uflow.Prelude.Text.{Str, text, valid_utf8}
use uflow.Prelude.Maps.{get, insert, remove, any_value}
use uflow.Bridge.Wire.{checksum64}
use uflow.Provider.Types.{
  provider_error, ResourceRef, Descriptor, AccessRef, remote_mapping, provider_version_mismatch,
  provider_resource_not_found, provider_resource_stale, descriptor_malformed, access_denied,
  range_out_of_bounds, provider_session_restarted, provider_operation_unsupported, ErrorCode,
}
use uflow.Provider.Operation.{
  Operation, initialize_deterministic, checksum_resource, checksum_access,
}
use uflow.Provider.Completion.{CompletionResult}
use uflow.Mock.State.{
  MockState, MockResource, MockAccess, MockProvider, Fault, failed, fail, resource_id, access_id,
  check_range, slice, overwrite, seeded, resource_ref,
}

abbrev pub Handler : Type 0
Handler = Result Fault (CompletionResult × MockState)

abbrev pub refuse : ErrorCode → Str → Fault
refuse code detail = failed (provider_error code detail)

-- `.get(id).ok_or_else(|| ...)?`
abbrev pub found {ℓ} : {A : Type ℓ} → Option A → Str → Result Fault A
found none detail = fail provider_resource_not_found detail
found (some a) detail = ok a

unfoldable pub execute_allocate : MockProvider → MockState → ℕ → Handler
execute_allocate p s size_bytes = do
  fail_if (size_bytes == 0 || ltb p.capabilities.max_transfer_bytes size_bytes)
      (refuse range_out_of_bounds (text "mock allocation size is invalid"))
  let id : Str = resource_id s.next_resource_id
  let resource : MockResource = record { generation = 1; bytes = replicate size_bytes 0 }
  ok (
    CompletionResult.resource (resource_ref id resource),
    record s {
      next_resource_id = wrapping_inc s.next_resource_id;
      resources = insert id resource s.resources;
    },
  )

-- `access.source_resource_id == ... && access.source_generation == ...`
abbrev pub is_access_of : ResourceRef → MockAccess → Bool
is_access_of r a =
    bytes_beq a.source_resource_id r.provider_resource_id
    && a.source_generation == r.resource_generation

unfoldable pub execute_release : MockState → ResourceRef → Handler
execute_release s r = do
  current ← found (get r.provider_resource_id s.resources) (text "mock resource does not exist")
  fail_if (not (current.generation == r.resource_generation))
      (refuse provider_resource_stale (text "mock resource generation is stale"))
  fail_if (any_value (is_access_of r) s.accesses)
      (refuse access_denied (text "mock resource still has an active access binding"))
  ok (CompletionResult.unit, record s { resources = remove r.provider_resource_id s.resources })

unfoldable pub execute_initialize : MockState → ResourceRef → ℕ → ℕ → ℕ → Handler
execute_initialize s r offset_bytes nbytes seed_id = do
  current ←
      found (get r.provider_resource_id s.resources) (text "mock seed resource does not exist")
  fail_if (not (current.generation == r.resource_generation))
      (refuse provider_resource_stale (text "mock seed resource generation is stale"))
  check_range (length current.bytes) offset_bytes nbytes
  written ← overwrite current.bytes offset_bytes (seeded seed_id 0 nbytes)
  ok (
    CompletionResult.bytes nbytes,
    record s {
      resources = insert r.provider_resource_id (record current { bytes = written }) s.resources;
    },
  )

abbrev pub mock_descriptor_major : ℕ
mock_descriptor_major = 1

unfoldable pub execute_publish : MockProvider → MockState → ResourceRef → ℕ → ℕ → Str → Handler
execute_publish p s r offset_bytes nbytes access_mode = do
  current ←
      found (get r.provider_resource_id s.resources) (text "mock publish resource does not exist")
  fail_if (not (current.generation == r.resource_generation))
      (refuse provider_resource_stale (text "mock publish generation is stale"))
  check_range (length current.bytes) offset_bytes nbytes
  ok (
    CompletionResult.descriptor (record {
      schema_major = mock_descriptor_major;
      schema_minor = 0;
      provider_id = p.identity.provider_id;
      provider_session_id = p.identity.session_id;
      resource_generation = current.generation;
      allowed_offset_bytes = offset_bytes;
      allowed_bytes = nbytes;
      access_mode = access_mode;
      opaque_bytes = r.provider_resource_id;
    }),
    s,
  )

-- `MockProvider::decode_resource_id`
unfoldable pub decode_resource_id : Descriptor → Result Fault Str
decode_resource_id d =
    if not (d.schema_major == mock_descriptor_major)
    then fail provider_version_mismatch (text "mock descriptor major mismatch")
    else if valid_utf8 d.opaque_bytes
    then ok d.opaque_bytes
    else fail descriptor_malformed (text "mock descriptor resource id is not UTF-8")

unfoldable pub execute_import : MockProvider → MockState → Descriptor → ℕ → ℕ → Str → Handler
execute_import p s d offset_bytes nbytes access_mode = do
  fail_if
      (not (bytes_beq d.provider_id p.identity.provider_id)
        || not (bytes_beq d.provider_session_id p.identity.session_id))
      (refuse provider_session_restarted
        (text "mock descriptor belongs to another provider session"))
  fail_if (not (bytes_beq access_mode (text "read")) || not (bytes_beq d.access_mode (text "read")))
      (refuse access_denied (text "PhaseC-02 mock import is read-only"))
  source_resource_id ← decode_resource_id d
  source ←
      found (get source_resource_id s.resources) (text "mock descriptor source no longer exists")
  fail_if (not (source.generation == d.resource_generation))
      (refuse provider_resource_stale (text "mock descriptor resource generation is stale"))
  check_range (length source.bytes) offset_bytes nbytes
  fail_if
      (ltb offset_bytes d.allowed_offset_bytes
        || ltb ((d.allowed_offset_bytes + d.allowed_bytes) % u64_mod) (offset_bytes + nbytes))
      (refuse range_out_of_bounds (text "mock import exceeds descriptor range"))
  let id : Str = access_id s.next_access_id
  let access : MockAccess = record {
    generation = 1;
    source_resource_id = source_resource_id;
    source_generation = source.generation;
    allowed_offset_bytes = offset_bytes;
    allowed_bytes = nbytes;
    access_mode = access_mode;
  }
  let result : AccessRef = record {
    accessor_provider_id = p.identity.provider_id;
    accessor_provider_session_id = p.identity.session_id;
    accessor_resource_id = id;
    access_generation = access.generation;
    source_resource_generation = access.source_generation;
    allowed_offset_bytes = access.allowed_offset_bytes;
    allowed_bytes = access.allowed_bytes;
    access_mode = access_mode;
    addressability = remote_mapping;
    opaque_token = [];
  }
  ok (
    CompletionResult.access result,
    record s {
      next_access_id = wrapping_inc s.next_access_id;
      accesses = insert id access s.accesses;
    },
  )

unfoldable pub execute_revoke : MockState → AccessRef → Handler
execute_revoke s a = do
  current ← found (get a.accessor_resource_id s.accesses) (text "mock access does not exist")
  fail_if (not (current.generation == a.access_generation))
      (refuse provider_resource_stale (text "mock access generation is stale"))
  ok (CompletionResult.unit, record s { accesses = remove a.accessor_resource_id s.accesses })

unfoldable pub execute_checksum_resource : MockState → ResourceRef → ℕ → ℕ → Handler
execute_checksum_resource s r offset_bytes nbytes = do
  current ←
      found (get r.provider_resource_id s.resources) (text "mock checksum resource does not exist")
  fail_if (not (current.generation == r.resource_generation))
      (refuse provider_resource_stale (text "mock checksum resource is stale"))
  check_range (length current.bytes) offset_bytes nbytes
  range ← slice current.bytes offset_bytes nbytes
  ok (CompletionResult.checksum (text "fnv1a64") (checksum64 range), s)

unfoldable pub execute_checksum_access : MockState → AccessRef → ℕ → ℕ → Handler
execute_checksum_access s a offset_bytes nbytes = do
  current ←
      found (get a.accessor_resource_id s.accesses) (text "mock checksum access does not exist")
  fail_if
      (not (current.generation == a.access_generation)
        || not (current.source_generation == a.source_resource_generation))
      (refuse provider_resource_stale (text "mock checksum access is stale"))
  fail_if (not (bytes_beq current.access_mode (text "read")))
      (refuse access_denied (text "mock checksum access is not readable"))
  check_range current.allowed_bytes offset_bytes nbytes
  source ←
      found (get current.source_resource_id s.resources)
        (text "mock checksum source no longer exists")
  range ← slice source.bytes ((current.allowed_offset_bytes + offset_bytes) % u64_mod) nbytes
  ok (CompletionResult.checksum (text "fnv1a64") (checksum64 range), s)

unfoldable pub execute_copy : MockState → ResourceRef → ResourceRef → ℕ → ℕ → ℕ → Handler
execute_copy s source destination source_offset_bytes destination_offset_bytes nbytes = do
  fail_if (bytes_beq source.provider_resource_id destination.provider_resource_id)
      (refuse provider_operation_unsupported (text "mock self-copy is not supported"))
  from ←
      found (get source.provider_resource_id s.resources) (text "mock copy source does not exist")
  check_range (length from.bytes) source_offset_bytes nbytes
  source_bytes ← slice from.bytes source_offset_bytes nbytes
  to ←
      found (get destination.provider_resource_id s.resources)
        (text "mock copy destination does not exist")
  check_range (length to.bytes) destination_offset_bytes nbytes
  written ← overwrite to.bytes destination_offset_bytes source_bytes
  ok (
    CompletionResult.bytes nbytes,
    record s {
      resources =
          insert destination.provider_resource_id (record to { bytes = written }) s.resources;
    },
  )

-- `MockProvider::execute`
unfoldable pub execute : MockProvider → MockState → Operation → Handler
execute p s (Operation.allocate size_bytes _ _ _) = execute_allocate p s size_bytes
execute p s (Operation.release r) = execute_release s r
execute p s (initialize_deterministic r offset_bytes nbytes seed_id) =
    execute_initialize s r offset_bytes nbytes seed_id
execute p s (Operation.publish r offset_bytes nbytes access_mode) =
    execute_publish p s r offset_bytes nbytes access_mode
execute p s (Operation.import d _ offset_bytes nbytes access_mode) =
    execute_import p s d offset_bytes nbytes access_mode
execute p s (Operation.revoke a) = execute_revoke s a
execute p s (checksum_resource r offset_bytes nbytes) =
    execute_checksum_resource s r offset_bytes nbytes
execute p s (checksum_access a offset_bytes nbytes) =
    execute_checksum_access s a offset_bytes nbytes
execute p s
      (Operation.copy source destination source_offset_bytes destination_offset_bytes nbytes) =
    execute_copy s source destination source_offset_bytes destination_offset_bytes nbytes
