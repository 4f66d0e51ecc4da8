-- ===== src/Mock/Delivery.antt =====
-- Completions of crates/uf-daemon/src/providers/mock.rs that outlast the submissions that follow them.
use uflow.Prelude.{
  ℕ, suc, ◌+◌, ◌≤◌, ◌<◌, ◌≡◌, refl, ◌∙◌, Bool, true, false, List, [], ◌∷◌, some, ok, err, arith,
  length, u64_mod, bytes_key, bytes_beq, bytes_beq_iff, inl, inr, Bool-cases,
}
use uflow.Prelude.Text.{text, to_decimal, to_decimal-injective, append_cancel_left}
use uflow.Prelude.Maps.{get-insert}
use uflow.Provider.Types.{provider_error, cancel_unsupported}
use uflow.Provider.Operation.{
  Operation, OperationKind, kind, supports, initialize_deterministic, checksum_resource,
  checksum_access,
}
use uflow.Provider.Completion.{CompletionResult, Snapshot, validate, terminal_rule, is_terminal}
use uflow.Mock.State.{MockState, MockProvider, Fault, panic, completion_id}
use uflow.Mock.Execute.{Handler, execute}
use uflow.Mock.Invariant.{Inv}
use uflow.Mock.Submit.{
  submit_operation, settle, with_id, complete_snapshot, failed_snapshot, poll_completion,
  wait_completion, cancel_completion,
}
use uflow.Mock.Effects.{
  allocate_effect, release_effect, initialize_effect, revoke_effect, publish_effect, copy_effect,
  checksum_resource_effect, checksum_access_effect, import_effect,
}
use uflow.Mock.Runs.{submit_all}
use uflow.Mock.Completions.{Reported, submit_operation-Reported}

completion_id-injective : (m n : ℕ) → completion_id m ≡ completion_id n → m ≡ n
unfolding completion_id
completion_id-injective m n e =
    to_decimal-injective m n
      (append_cancel_left (text "completion-") (to_decimal m) (to_decimal n) e)

-- Another completion id is another key.
other_id : (m n : ℕ) → n < m → bytes_beq (completion_id m) (completion_id n) ≡ false
other_id m n below = elim (Bool-cases (bytes_beq (completion_id m) (completion_id n))) [
  | inr other ↦ other
  | inl same ↦ absurd (
      omega (
        arith,
        completion_id-injective m n ((bytes_beq_iff (completion_id m) (completion_id n)).0 same),
      ))
]

-- The completions, and the next id of one, are as before.
abbrev Untouched : MockState → MockState → Type 0
Untouched s t = (t.completions ≡ s.completions) × (t.next_completion_id ≡ s.next_completion_id)

-- An operation leaves the completions to `submit_operation`.
execute-Untouched :
    (p : MockProvider) (s t : MockState) (op : Operation) (c : CompletionResult)
    → execute p s op ≡ ok (c, t)
    → Untouched s t
unfolding execute
execute-Untouched p s t (Operation.allocate n _ _ _) c e =
    let (_, _, is) = allocate_effect s c t p n e in rw is (refl, refl)
execute-Untouched p s t (Operation.release r) c e =
    let (_, _, _, _, is) = release_effect s c t r e in rw is (refl, refl)
execute-Untouched p s t (initialize_deterministic r o n seed) c e =
    let (_, _, _, _, _, _, is) = initialize_effect s c t r o n seed e in rw is (refl, refl)
execute-Untouched p s t (Operation.publish r o n mode) c e =
    rw (publish_effect s c t p r o n mode e) (refl, refl)
execute-Untouched p s t (Operation.import d _ o n mode) c e =
    let (_, _, _, _, _, _, is) = import_effect s c t p d o n mode e in rw is (refl, refl)
execute-Untouched p s t (Operation.revoke a) c e = rw (revoke_effect s c t a e) (refl, refl)
execute-Untouched p s t (checksum_resource r o n) c e =
    rw (checksum_resource_effect s c t r o n e) (refl, refl)
execute-Untouched p s t (checksum_access a o n) c e =
    rw (checksum_access_effect s c t a o n e) (refl, refl)
execute-Untouched p s t (Operation.copy a b o1 o2 n) c e =
    let (_, _, _, _, _, _, _, _, _, _, _, is) = copy_effect s c t a b o1 o2 n e in
    rw is (refl, refl)

-- The ids move on by one at most, and the snapshots under those handed out stay.
record Keeps (s t : MockState) : Type 0 where
  least : s.next_completion_id ≤ t.next_completion_id
  most : t.next_completion_id ≤ s.next_completion_id + 1
  polls :
      (n : ℕ)
      → n < s.next_completion_id
      → poll_completion t (completion_id n) ≡ poll_completion s (completion_id n)

Keeps-settle :
    (k : OperationKind) (s : MockState) (h : Handler)
    → s.next_completion_id + 1 < u64_mod
    → ((c : CompletionResult) (t : MockState) → h ≡ ok (c, t) → Untouched (with_id s) t)
    → Keeps s (settle (completion_id s.next_completion_id) k (with_id s) h).1
unfolding settle validate terminal_rule is_terminal poll_completion
Keeps-settle k s (ok (c, t)) last same =
    let (all, next) = same c t refl in
    record {
      least = omega (arith, next, last);
      most = omega (arith, next, last);
      polls = λ n below. ground (
        arith,
        all,
        get-insert (completion_id s.next_completion_id) (completion_id n)
            (complete_snapshot (completion_id s.next_completion_id) c) t.completions,
        other_id s.next_completion_id n below,
      );
    }
Keeps-settle k s (err (Fault.failed x)) last same = record {
  least = omega (arith, last);
  most = omega (arith, last);
  polls = λ n below. ground (
    arith,
    get-insert (completion_id s.next_completion_id) (completion_id n)
        (failed_snapshot (completion_id s.next_completion_id) x) s.completions,
    other_id s.next_completion_id n below,
  );
}
Keeps-settle k s (err panic) last same = record {
  least = omega (arith, last);
  most = omega (arith, last);
  polls = λ n below. refl;
}

Keeps-submit_operation :
    (p : MockProvider) (s : MockState) (op : Operation)
    → s.next_completion_id + 1 < u64_mod
    → Keeps s (submit_operation p s op).1
unfolding submit_operation
Keeps-submit_operation p s op last = elim (Bool-cases (supports p.capabilities (kind op))) [
  | inr not_supported ↦
      rw not_supported (record { least = omega arith; most = omega arith; polls = λ n below. refl })
  | inl can ↦ rw can (
      Keeps-settle (kind op) s (execute p (with_id s) op) last
        (λ c t e. execute-Untouched p (with_id s) t op c e))
]

-- What is polled under an id that was handed out stays, whatever is submitted, while the ids last.
poll_completion-submit_all :
    (p : MockProvider) (ops : List Operation) (s : MockState) (n : ℕ)
    → n < s.next_completion_id
    → s.next_completion_id + length ops < u64_mod
    → poll_completion (submit_all p ops s).1 (completion_id n) ≡ poll_completion s (completion_id n)
unfolding submit_all
poll_completion-submit_all p [] s n below last = refl
poll_completion-submit_all p (op ∷ ops) s n below last =
    let keeps = Keeps-submit_operation p s op (omega (arith, last)) in
    poll_completion-submit_all p ops (submit_operation p s op).1 n
      (omega (arith, below, keeps.least)) (omega (arith, last, keeps.most))
    ∙ keeps.polls n below

next-submit_operation :
    (p : MockProvider) (s : MockState) (op : Operation)
    → supports p.capabilities (kind op) ≡ true
    → s.next_completion_id + 1 < u64_mod
    → s.next_completion_id < (submit_operation p s op).1.next_completion_id
unfolding submit_operation settle validate
next-submit_operation p s op can last =
    rw can (next (execute p (with_id s) op) (λ c t e. execute-Untouched p (with_id s) t op c e))
  where
    next :
        (h : Handler)
        → ((c : CompletionResult) (t : MockState) → h ≡ ok (c, t) → Untouched (with_id s) t)
        → s.next_completion_id
          < (settle
              (completion_id s.next_completion_id)
              (kind op)
              (with_id s)
              h).1.next_completion_id
    next (ok (c, t)) same = omega (arith, (same c t refl).1, last)
    next (err (Fault.failed x)) same = omega (arith, last)
    next (err panic) same = omega (arith, last)

-- An operation of a supported kind that is submitted in a state with the invariant is waited for with success,
-- whatever is submitted before the first poll, and whatever the clock says, while the completion ids last: the
-- snapshot is terminal and tells how the operation ended, and canceling it is refused.
pub wait_completion-submit_all :
    (p : MockProvider) (s : MockState) (op : Operation) (others : ℕ → List Operation)
    (late : ℕ → Bool) (fuel : ℕ)
    → supports p.capabilities (kind op) ≡ true
    → s.next_completion_id + 1 + length (others fuel) < u64_mod
    → Inv s
    → (snapshot : Snapshot) × Reported
        (submit_all p (others fuel) (submit_operation p s op).1).1
        (completion_id s.next_completion_id)
        (execute p (with_id s) op)
        snapshot
      × (wait_completion
            (λ n. (submit_all p (others n) (submit_operation p s op).1).1)
            late
            (suc fuel)
            (completion_id s.next_completion_id)
          ≡ some (ok snapshot))
      × (cancel_completion
            (submit_all p (others fuel) (submit_operation p s op).1).1
            (completion_id s.next_completion_id)
          ≡ err (provider_error cancel_unsupported (text "mock completion is already terminal")))
unfolding wait_completion cancel_completion
wait_completion-submit_all p s op others late fuel can last v =
    let (_, snapshot, r) = submit_operation-Reported p s op can v in
    let keeps = Keeps-submit_operation p s op (omega (arith, last)) in
    let there =
      poll_completion-submit_all p (others fuel) (submit_operation p s op).1 s.next_completion_id
        (next-submit_operation p s op can (omega (arith, last))) (omega (arith, last, keeps.most))
      ∙ r.polled in
    (
      snapshot,
      record { polled = there; valid = r.valid; terminal = r.terminal; tells = r.tells },
      ground (arith, there, r.terminal),
      ground (arith, there, r.terminal),
    )
