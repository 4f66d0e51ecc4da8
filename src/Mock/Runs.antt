-- ===== src/Mock/Runs.antt =====
-- Sequences of submissions to crates/uf-daemon/src/providers/mock.rs, from a new provider on.
use uflow.Prelude.{
  ◌+◌, ◌<◌, ◌≤◌, ◌≡◌, ◌≢◌, refl, List, [], ◌∷◌, Result, ok, err, arith, length, inl, inr,
  Bool-cases, u64_mod, All,
}
use uflow.Provider.Operation.{
  Operation, OperationKind, kind, supports, initialize_deterministic, checksum_resource,
  checksum_access,
}
use uflow.Prelude.Text.{Str}
use uflow.Prelude.Maps.{get}
use uflow.Provider.Completion.{CompletionResult, Submission, validate, terminal_rule, is_terminal}
use uflow.Mock.State.{MockState, MockProvider, Fault, panic, completion_id}
use uflow.Mock.Execute.{Handler, execute}
use uflow.Mock.Submit.{submit_operation, settle, with_id, initial_state, Answer}
use uflow.Mock.Invariant.{Inv}
use uflow.Mock.Preserve.{HasIds, execute-Inv}
use uflow.Mock.Panics.{execute-ne-panic}
use uflow.Mock.Effects.{
  allocate_effect, release_effect, initialize_effect, revoke_effect, publish_effect, copy_effect,
  checksum_resource_effect, checksum_access_effect, import_effect,
}

-- The answers to a sequence of submissions, and the state after it.
unfoldable pub submit_all :
    MockProvider → List Operation → MockState → List (Result Fault Submission) × MockState
submit_all p [] s = ([], s)
submit_all p (op ∷ ops) s =
    let answer = submit_operation p s op in
    let others = submit_all p ops answer.1 in (answer.0 ∷ others.0, others.1)

-- An operation takes at most one id of each kind.
abbrev OneId : MockState → MockState → Type 0
OneId s t =
    (t.next_resource_id ≤ s.next_resource_id + 1) × (t.next_access_id ≤ s.next_access_id + 1)

execute-OneId :
    (p : MockProvider) (s t : MockState) (op : Operation) (c : CompletionResult)
    → execute p s op ≡ ok (c, t)
    → OneId s t
unfolding execute
execute-OneId p s t (Operation.allocate n _ _ _) c e =
    let (_, _, is) = allocate_effect s c t p n e in rw is (omega arith, omega arith)
execute-OneId p s t (Operation.release r) c e =
    let (_, _, _, _, is) = release_effect s c t r e in rw is (omega arith, omega arith)
execute-OneId p s t (initialize_deterministic r o n seed) c e =
    let (_, _, _, _, _, _, is) = initialize_effect s c t r o n seed e in
    rw is (omega arith, omega arith)
execute-OneId p s t (Operation.publish r o n mode) c e =
    rw (publish_effect s c t p r o n mode e) (omega arith, omega arith)
execute-OneId p s t (Operation.import d _ o n mode) c e =
    let (_, _, _, _, _, _, is) = import_effect s c t p d o n mode e in
    rw is (omega arith, omega arith)
execute-OneId p s t (Operation.revoke a) c e =
    rw (revoke_effect s c t a e) (omega arith, omega arith)
execute-OneId p s t (checksum_resource r o n) c e =
    rw (checksum_resource_effect s c t r o n e) (omega arith, omega arith)
execute-OneId p s t (checksum_access a o n) c e =
    rw (checksum_access_effect s c t a o n e) (omega arith, omega arith)
execute-OneId p s t (Operation.copy a b o1 o2 n) c e =
    let (_, _, _, _, _, _, _, _, _, _, _, is) = copy_effect s c t a b o1 o2 n e in
    rw is (omega arith, omega arith)

-- A submission keeps the invariant, and no submission panics.
record Kept (s : MockState) (a : Answer) : Type 0 where
  inv : Inv a.1
  ids : OneId s a.1
  calm : a.0 ≢ err panic

-- The invariant says nothing of completions and counters.
Inv-bookkeeping :
    (s t : MockState)
    → Inv s
    → t.next_resource_id ≡ s.next_resource_id
    → t.next_access_id ≡ s.next_access_id
    → t.resources ≡ s.resources
    → t.accesses ≡ s.accesses
    → Inv t
Inv-bookkeeping s t v r a rs accs = record {
  resource_keys = rw (r, rs) v.resource_keys;
  access_keys = rw (a, accs) v.access_keys;
  sized = rw rs v.sized;
  backed = rw (rs, accs) v.backed;
  readable = rw accs v.readable;
}

Kept-settle :
    (s : MockState) (id : Str) (k : OperationKind) (h : Handler)
    → Inv s
    → h ≢ err panic
    → ((c : CompletionResult) (t : MockState) → h ≡ ok (c, t) → Inv t × OneId s t)
    → Kept s (settle id k s h)
unfolding settle validate terminal_rule is_terminal
Kept-settle s id k (ok (c, t)) v calm more =
    let (w, ids) = more c t refl in
    record { inv = Inv-bookkeeping t _ w refl refl refl refl; ids = ids; calm = λ e. ground arith }
Kept-settle s id k (err (Fault.failed x)) v calm more = record {
  inv = Inv-bookkeeping s _ v refl refl refl refl;
  ids = (omega arith, omega arith);
  calm = λ e. ground arith;
}
Kept-settle s id k (err panic) v calm more = absurd (calm refl)

Kept-submit :
    (p : MockProvider) (s : MockState) (op : Operation)
    → p.capabilities.max_transfer_bytes < u64_mod
    → HasIds s
    → Inv s
    → Kept s (submit_operation p s op)
unfolding submit_operation
Kept-submit p s op limit ids v = elim (Bool-cases (supports p.capabilities (kind op))) [
  | inr not_supported ↦
      rw not_supported
        (record { inv = v; ids = (omega arith, omega arith); calm = λ e. ground arith })
  | inl can ↦
      let w = Inv-bookkeeping s (with_id s) v refl refl refl refl in
      let has : HasIds (with_id s) = record {
        resource_left = ids.resource_left;
        access_left = ids.access_left;
      } in
      let settled =
        Kept-settle (with_id s) (completion_id s.next_completion_id) (kind op)
          (execute p (with_id s) op) w (execute-ne-panic p (with_id s) op w)
          (λ c t e. (
            execute-Inv p (with_id s) t op c limit has w e,
            execute-OneId p (with_id s) t op c e,
          )) in
      rw can (record { inv = settled.inv; ids = settled.ids; calm = settled.calm })
]

-- No sequence of submissions to a provider makes it panic, and the invariant holds after it, from a state
-- with the invariant, if allocations are limited below 2 ^ 64 bytes and the resource and access ids last for the
-- sequence.
pub submit_all-Inv :
    (p : MockProvider) (ops : List Operation) (s : MockState)
    → p.capabilities.max_transfer_bytes < u64_mod
    → s.next_resource_id + length ops < u64_mod
    → s.next_access_id + length ops < u64_mod
    → Inv s
    → All (λ answer. answer ≢ err panic) (submit_all p ops s).0 × Inv (submit_all p ops s).1
unfolding submit_all
submit_all-Inv p [] s limit rs accs v = (tt, v)
submit_all-Inv p (op ∷ ops) s limit rs accs v =
    let kept =
      Kept-submit p s op limit (record { resource_left = omega arith; access_left = omega arith })
        v in
    let (calm, inv) =
      submit_all-Inv p ops (submit_operation p s op).1 limit (omega (arith, kept.ids.0))
        (omega (arith, kept.ids.1)) kept.inv in
    ((kept.calm, calm), inv)

-- A new provider has the invariant.
pub initial_state-Inv : Inv initial_state
unfolding get
initial_state-Inv = record {
  resource_keys = λ k v e. absurd (ground arith);
  access_keys = λ k v e. absurd (ground arith);
  sized = λ k v e. absurd (ground arith);
  backed = λ k v e. absurd (ground arith);
  readable = λ k v e. absurd (ground arith);
}
