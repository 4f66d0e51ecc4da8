-- ===== src/Mock/Tests.antt =====
-- Runs of the provider of crates/uf-daemon/src/providers/mock.rs, and its theorems at them.
use uflow.Prelude.{
  ◌≡◌, ◌≢◌, refl, List, [], ◌∷◌, true, ok, err, arith, All, some, bytes_beq, bytes_key,
}
use uflow.Prelude.Text.{Str, text, to_decimal, valid_utf8}
use uflow.Prelude.Maps.{get, insert, remove}
use uflow.Bridge.Wire.{checksum64}
use uflow.Provider.Types.{
  ResourceRef, Descriptor, AccessRef, provider_only, remote_mapping, provider_error,
  cancel_unsupported,
}
use uflow.Provider.Operation.{
  Operation, kind, supports, as_str, same_kind, initialize_deterministic, checksum_access, contains,
}
use uflow.Provider.Completion.{
  CompletionResult, Snapshot, complete, validate, is_terminal, terminal_rule,
}
use uflow.Mock.State.{
  MockState, MockResource, MockAccess, MockProvider, panic, resource_id, access_id, completion_id,
  check_range, slice, overwrite, seeded, resource_ref,
}
use uflow.Mock.Execute.{
  execute, execute_allocate, execute_release, execute_initialize, execute_import, execute_revoke,
  execute_checksum_resource, execute_checksum_access, execute_copy, decode_resource_id,
}
use uflow.Mock.Submit.{
  new, initial_state, submit_operation, settle, with_id, wait_completion, cancel_completion,
}
use uflow.Mock.Invariant.{Inv}
use uflow.Mock.Preserve.{execute-Inv}
use uflow.Mock.Panics.{execute-ne-panic}
use uflow.Mock.Completions.{Reported, submit_operation-Reported}
use uflow.Mock.Delivery.{wait_completion-submit_all}
use uflow.Mock.Runs.{submit_all, submit_all-Inv, initial_state-Inv}
use uflow.Mock.Sharing.{checksum_access-eq-resource, release-ne-ok, checksum_resource-copy}

abbrev mock : MockProvider
mock = new (text "0") (text "m") (text "r") (text "n")

abbrev ref : Str → ResourceRef
ref id = record {
  provider_resource_id = id;
  resource_generation = 1;
  size_bytes = 4;
  allowed_offset_bytes = 0;
  allowed_bytes = 4;
  addressability = provider_only;
  opaque_token = [];
}

abbrev published : Descriptor
published = record {
  schema_major = 1;
  schema_minor = 0;
  provider_id = text "m";
  provider_session_id = text "m:n:session-1";
  resource_generation = 1;
  allowed_offset_bytes = 0;
  allowed_bytes = 4;
  access_mode = text "read";
  opaque_bytes = text "resource-1";
}

abbrev ops : List Operation
ops =
    Operation.allocate 4 1 (text "dram") (text "n")
    ∷ Operation.allocate 4 1 (text "dram") (text "n")
    ∷ initialize_deterministic (ref (text "resource-1")) 0 4 7
    ∷ Operation.import published (text "n") 1 2 (text "read")
    ∷ []

submit_all-Inv_example :
    All (λ answer. answer ≢ err panic) (submit_all mock ops initial_state).0
    × Inv (submit_all mock ops initial_state).1
submit_all-Inv_example =
    submit_all-Inv mock ops initial_state (omega arith) (omega arith) (omega arith)
      initial_state-Inv

abbrev source : MockResource
source = record { generation = 1; bytes = 7 ∷ 36 ∷ 65 ∷ 94 ∷ [] }

abbrev target : MockResource
target = record { generation = 1; bytes = 0 ∷ 0 ∷ 0 ∷ 0 ∷ [] }

abbrev reader : MockAccess
reader = record {
  generation = 1;
  source_resource_id = text "resource-1";
  source_generation = 1;
  allowed_offset_bytes = 1;
  allowed_bytes = 2;
  access_mode = text "read";
}

-- The state after `ops`.
abbrev later : MockState
later = (submit_all mock ops initial_state).1

-- What the state after `ops` computes to.
abbrev shown : MockState
shown = record initial_state {
  next_resource_id = 3;
  next_access_id = 2;
  next_completion_id = 5;
  resources = (text "resource-1", source) ∷ (text "resource-2", target) ∷ [];
  accesses = (text "access-1", reader) ∷ [];
  completions = later.completions;
  counters = later.counters;
}

later-shown : later ≡ shown
unfolding submit_all submit_operation settle supports contains same_kind kind as_str validate
    is_terminal terminal_rule execute execute_allocate execute_initialize execute_import
    decode_resource_id check_range overwrite seeded resource_id access_id completion_id resource_ref
    get insert bytes_beq valid_utf8 to_decimal text
later-shown = refl

shown-Inv : Inv shown
shown-Inv =
    rw (← later-shown)
      (submit_all-Inv mock ops initial_state (omega arith) (omega arith) (omega arith)
        initial_state-Inv).1

abbrev reader_ref : AccessRef
reader_ref = record {
  accessor_provider_id = text "m";
  accessor_provider_session_id = text "m:n:session-1";
  accessor_resource_id = text "access-1";
  access_generation = 1;
  source_resource_generation = 1;
  allowed_offset_bytes = 1;
  allowed_bytes = 2;
  access_mode = text "read";
  addressability = remote_mapping;
  opaque_token = [];
}

execute-Inv_example : Inv (record shown { accesses = [] })
unfolding execute execute_revoke get remove bytes_beq text
execute-Inv_example =
    execute-Inv mock shown (record shown { accesses = [] }) (Operation.revoke reader_ref)
      CompletionResult.unit (omega arith)
      (record { resource_left = omega arith; access_left = omega arith }) shown-Inv refl

execute-ne-panic_example : execute mock shown (checksum_access reader_ref 0 2) ≢ err panic
execute-ne-panic_example = execute-ne-panic mock shown (checksum_access reader_ref 0 2) shown-Inv

abbrev read_back : Operation
read_back = checksum_access reader_ref 0 2

submit_operation-Reported_example :
    ((submit_operation mock shown read_back).0
      ≡ ok (record { provider_completion_id = completion_id 5; initial_state = complete }))
    × (snapshot : Snapshot) × Reported
        (submit_operation mock shown read_back).1
        (completion_id 5)
        (execute mock (with_id shown) read_back)
        snapshot
unfolding supports contains same_kind kind
submit_operation-Reported_example = submit_operation-Reported mock shown read_back refl shown-Inv

wait_completion-submit_all_example :
    (snapshot : Snapshot) × Reported
      (submit_all mock (read_back ∷ read_back ∷ []) (submit_operation mock shown read_back).1).1
      (completion_id 5)
      (execute mock (with_id shown) read_back)
      snapshot
    × (wait_completion
          (λ n.
            (submit_all mock
              (read_back ∷ read_back ∷ [])
              (submit_operation mock shown read_back).1).1)
          (λ n. true)
          4
          (completion_id 5)
        ≡ some (ok snapshot))
    × (cancel_completion
          (submit_all mock (read_back ∷ read_back ∷ []) (submit_operation mock shown read_back).1).1
          (completion_id 5)
        ≡ err (provider_error cancel_unsupported (text "mock completion is already terminal")))
unfolding supports contains same_kind kind
wait_completion-submit_all_example =
    wait_completion-submit_all mock shown read_back (λ n. read_back ∷ read_back ∷ []) (λ n. true) 3
      refl (omega arith) shown-Inv

checksum_access-eq-resource_example :
    execute_checksum_access shown reader_ref 0 2
    ≡ execute_checksum_resource shown (ref (text "resource-1")) 1 2
unfolding get bytes_beq text
checksum_access-eq-resource_example =
    checksum_access-eq-resource shown reader_ref (ref (text "resource-1")) reader 0 2 shown-Inv refl
      refl refl (omega arith) (λ e. omega arith)

release-ne-ok_example :
    execute_release shown (ref (text "resource-1")) ≢ ok (CompletionResult.unit, shown)
unfolding get bytes_beq text
release-ne-ok_example =
    release-ne-ok shown shown (ref (text "resource-1")) (text "access-1") reader
      CompletionResult.unit refl refl refl

abbrev copied : MockState
copied = record shown {
  resources =
      (text "resource-1", source)
      ∷ (text "resource-2", record target { bytes = 0 ∷ 36 ∷ 65 ∷ 0 ∷ [] })
      ∷ [];
}

abbrev copied_sum : CompletionResult
copied_sum = CompletionResult.checksum (text "fnv1a64") (checksum64 (36 ∷ 65 ∷ []))

checksum_resource-copy_example :
    execute_checksum_resource copied (ref (text "resource-2")) 1 2 ≡ ok (copied_sum, copied)
unfolding execute_copy execute_checksum_resource check_range slice overwrite get insert bytes_beq
    text
checksum_resource-copy_example =
    checksum_resource-copy shown copied (ref (text "resource-1")) (ref (text "resource-2")) target 1
      1 2 (CompletionResult.bytes 2) copied_sum refl refl refl refl
