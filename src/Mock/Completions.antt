-- ===== src/Mock/Completions.antt =====
-- What a client learns of an operation that it submitted to crates/uf-daemon/src/providers/mock.rs.
use uflow.Prelude.{ℕ, ◌≡◌, ◌≢◌, refl, true, some, ok, err, arith, bytes_key, bytes_beq_refl}
use uflow.Prelude.Text.{Str}
use uflow.Prelude.Maps.{Map, insert, get-insert}
use uflow.Provider.Operation.{Operation, OperationKind, kind, supports}
use uflow.Provider.Completion.{Snapshot, complete, is_terminal, validate, terminal_rule, failed}
use uflow.Mock.State.{MockState, MockProvider, Fault, panic, completion_id}
use uflow.Mock.Execute.{Handler, execute}
use uflow.Mock.Invariant.{Inv}
use uflow.Mock.Panics.{execute-ne-panic}
use uflow.Mock.Submit.{
  submit_operation, settle, with_id, complete_snapshot, failed_snapshot, poll_completion,
}

poll_recorded :
    (snapshot : Snapshot) (t : MockState) (id : Str) (c : Map Str ℕ)
    → poll_completion (record t { counters = c; completions = insert id snapshot t.completions }) id
      ≡ ok snapshot
unfolding poll_completion
poll_recorded snapshot t id c =
    ground (arith, get-insert id id snapshot t.completions, bytes_beq_refl id)

-- What the snapshot says is how the operation ended.
unfoldable pub Tells : Handler → Snapshot → Type 0
Tells (ok (result, t)) snapshot = (snapshot.state ≡ complete) × (snapshot.result ≡ some result)
Tells (err (Fault.failed e)) snapshot = (snapshot.state ≡ failed) × (snapshot.error ≡ some e)
Tells (err panic) snapshot = Unit

-- The snapshot under the id is well formed and terminal, and tells how the operation ended.
pub record Reported (t : MockState) (id : Str) (h : Handler) (snapshot : Snapshot) : Type 0 where
  pub polled : poll_completion t id ≡ ok snapshot
  pub valid : validate snapshot ≡ ok tt
  pub terminal : is_terminal snapshot.state ≡ true
  pub tells : Tells h snapshot

Reported-settle :
    (id : Str) (k : OperationKind) (s : MockState) (h : Handler)
    → h ≢ err panic
    → ((settle id k s h).0 ≡ ok (record { provider_completion_id = id; initial_state = complete }))
      × (snapshot : Snapshot) × Reported (settle id k s h).1 id h snapshot
unfolding settle is_terminal validate terminal_rule Tells
Reported-settle id k s (ok (result, u)) calm = (
  refl,
  complete_snapshot id result,
  record {
    polled = poll_recorded (complete_snapshot id result) u id _;
    valid = refl;
    terminal = refl;
    tells = (refl, refl);
  },
)
Reported-settle id k s (err (Fault.failed e)) calm = (
  refl,
  failed_snapshot id e,
  record {
    polled = poll_recorded (failed_snapshot id e) s id _;
    valid = refl;
    terminal = refl;
    tells = (refl, refl);
  },
)
Reported-settle id k s (err panic) calm = absurd (calm refl)

Inv-with_id : (s : MockState) → Inv s → Inv (with_id s)
Inv-with_id s v = record {
  resource_keys = v.resource_keys;
  access_keys = v.access_keys;
  sized = v.sized;
  backed = v.backed;
  readable = v.readable;
}

-- An operation of a supported kind is given the next completion id; a poll for that id then finds a
-- well-formed, terminal snapshot that tells how the operation ended: in a state with the invariant.
pub submit_operation-Reported :
    (p : MockProvider) (s : MockState) (op : Operation)
    → supports p.capabilities (kind op) ≡ true
    → Inv s
    → ((submit_operation p s op).0
        ≡ ok (record {
          provider_completion_id = completion_id s.next_completion_id;
          initial_state = complete;
        }))
      × (snapshot : Snapshot) × Reported
          (submit_operation p s op).1
          (completion_id s.next_completion_id)
          (execute p (with_id s) op)
          snapshot
unfolding submit_operation
submit_operation-Reported p s op can v = rw can (
    Reported-settle (completion_id s.next_completion_id) (kind op) (with_id s)
      (execute p (with_id s) op) (execute-ne-panic p (with_id s) op (Inv-with_id s v)))
