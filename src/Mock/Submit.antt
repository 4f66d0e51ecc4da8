-- ===== src/Mock/Submit.antt =====
-- `MockProvider` as a `DataProvider`: crates/uf-daemon/src/providers/mock.rs. The lock is not modelled,
-- nor the error on a lock that a panic has poisoned.
use uflow.Prelude.{
  ℕ, [], ◌∷◌, ◌++◌, Bool, Option, none, some, Result, ok, err, ◌>>=◌, ◌>>◌, fail_if, if◌then◌else◌,
  wrapping_inc, bytes_key, zero, suc,
}
use uflow.Prelude.Text.{Str, text}
use uflow.Prelude.Maps.{Map, get, insert}
use uflow.Provider.Types.{
  ProviderError, provider_error, provider_operation_unsupported, provider_resource_not_found,
  timeout, cancel_unsupported, ProviderKind, semantic, provider_only,
}
use uflow.Provider.Operation.{Operation, OperationKind, kind, as_str, supports, checksum, write}
use uflow.Provider.Completion.{
  CompletionResult, Submission, Snapshot, complete, failed, is_terminal, validate,
}
use uflow.Mock.State.{MockState, MockProvider, Fault, panic, completion_id}
use uflow.Mock.Execute.{Handler, execute}

-- The state of `MockProvider::new`.
abbrev pub initial_state : MockState
initial_state = record {
  next_resource_id = 1;
  next_access_id = 1;
  next_completion_id = 1;
  resources = [];
  accesses = [];
  completions = [];
  counters = [];
}

-- `MockProvider::new`; the package's version is a parameter.
abbrev pub new : Str → Str → Str → Str → MockProvider
new version provider_id execution_realm_id node_id = record {
  identity = record {
    provider_api_major = 1;
    provider_api_minor = 0;
    provider_id = provider_id;
    provider_kind = ProviderKind.mock;
    adapter_revision = version;
    external_platform_revision = text "mock";
    external_protocol_revision = text "mock-provider-v1";
    execution_realm_id = execution_realm_id;
    node_id = node_id;
    session_id = provider_id ++ (text ":" ++ (node_id ++ text ":session-1"));
    boot_id = node_id ++ text ":boot-1";
    session_generation = 1;
    fidelity = semantic;
    limitations = text "contract-test-only" ∷ [];
  };
  capabilities = record {
    supported_operations =
        OperationKind.allocate ∷ OperationKind.release ∷ OperationKind.publish
        ∷ OperationKind.import ∷ OperationKind.revoke ∷ checksum ∷ OperationKind.copy ∷ write ∷ [];
    max_transfer_bytes = 16777216;
    alignment_bytes = 1;
    queue_depth = 1024;
    addressability = provider_only;
    limitations = text "not-a-data-plane" ∷ [];
  };
}

-- What a call answers, and the state that it leaves.
abbrev pub Answer : Type 0
Answer = Result Fault Submission × MockState

abbrev pub count_from : Option ℕ → ℕ
count_from none = 1
count_from (some n) = wrapping_inc n

-- `*state.counters.entry(name).or_insert(0) += 1`
abbrev pub bump : Str → Map Str ℕ → Map Str ℕ
bump name counters = insert name (count_from (get name counters)) counters

abbrev pub record_snapshot :
    Snapshot → OperationKind → MockState → Result ProviderError (Unit {0}) → Answer
record_snapshot snapshot k t (err e) = (err (Fault.failed e), t)
record_snapshot snapshot k t (ok done) = (
  ok (record {
    provider_completion_id = snapshot.provider_completion_id;
    initial_state = complete;
  }),
  record t {
    counters = bump (as_str k) t.counters;
    completions = insert snapshot.provider_completion_id snapshot t.completions;
  },
)

abbrev pub complete_snapshot : Str → CompletionResult → Snapshot
complete_snapshot id result = record {
  provider_completion_id = id;
  state = complete;
  result = some result;
  error = none;
}

abbrev pub failed_snapshot : Str → ProviderError → Snapshot
failed_snapshot id e = record {
  provider_completion_id = id;
  state = failed;
  result = none;
  error = some e;
}

-- The end of `submit_operation`, from the `match` on; `s` is the state before `execute`.
unfoldable pub settle : Str → OperationKind → MockState → Handler → Answer
settle id k s (ok (result, t)) =
    record_snapshot (complete_snapshot id result) k t (validate (complete_snapshot id result))
settle id k s (err (Fault.failed e)) =
    record_snapshot (failed_snapshot id e) k s (validate (failed_snapshot id e))
settle id k s (err panic) = (err panic, s)

-- The state in which the operation is executed: its completion id is taken.
abbrev pub with_id : MockState → MockState
with_id s = record s { next_completion_id = wrapping_inc s.next_completion_id }

-- `submit_operation`
unfoldable pub submit_operation : MockProvider → MockState → Operation → Answer
submit_operation p s op =
    if supports p.capabilities (kind op)
    then settle (completion_id s.next_completion_id) (kind op) (with_id s)
        (execute p (with_id s) op)
    else (
      err (
          Fault.failed (
            provider_error provider_operation_unsupported
              (text "mock provider does not support " ++ as_str (kind op)))),
      s,
    )

abbrev pub snapshot_or_missing : Option Snapshot → Result ProviderError Snapshot
snapshot_or_missing none =
    err (provider_error provider_resource_not_found (text "mock completion does not exist"))
snapshot_or_missing (some snapshot) = ok snapshot

-- `poll_completion`
unfoldable pub poll_completion : MockState → Str → Result ProviderError Snapshot
poll_completion s id = snapshot_or_missing (get id s.completions)

-- `wait_completion`: `states` are the states that the polls see and `late` is the test of the
-- deadline, both by the fuel that is left; `none` is a loop that has not ended yet.
unfoldable pub wait_completion :
    (ℕ → MockState) → (ℕ → Bool) → ℕ → Str → Option (Result ProviderError Snapshot)
wait_completion states late zero id = none
wait_completion states late (suc fuel) id =
    let later = wait_completion states late fuel id in
    elim (poll_completion (states fuel) id) [
      | err e ↦ some (err e)
      | ok snapshot ↦
          if is_terminal snapshot.state
          then some (ok snapshot)
          else if late fuel
          then some (err (provider_error timeout (text "mock completion wait timed out")))
          else later
    ]

-- `cancel_completion`
unfoldable pub cancel_completion : MockState → Str → Result ProviderError (Unit {0})
cancel_completion s id = do
  snapshot ← poll_completion s id
  fail_if (is_terminal snapshot.state)
      (provider_error cancel_unsupported (text "mock completion is already terminal"))
  err (provider_error cancel_unsupported (text "mock provider has no pending operations"))

-- `read_counters`
abbrev pub read_counters : MockState → Map Str ℕ
read_counters s = s.counters
