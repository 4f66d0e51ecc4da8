-- ===== src/Recovery/Audit/Backings.antt =====
-- The events on backings of crates/uf-daemon/src/ddr_recovery_audit.rs, an arm of `apply` to a definition.
-- An arm that fails has changed nothing: each makes its checks before its writes.
use uflow.Prelude.{
  ℕ, is_some, Bool, false, ◌&&◌, ◌||◌, not, none, Result, ok, ◌>>=◌, ◌>>◌, fail_if, ok_or, ◌==◌,
  ltb, checked_add, nat_key, bytes_beq,
}
use uflow.Prelude.Text.{Str, text}
use uflow.Prelude.Maps.{get, insert, any_value}
use uflow.Recovery.Audit.Types.{
  BackingIdentity, immutable, Purpose, staging, probe_only, same_birth,
}
use uflow.Recovery.Audit.State.{
  AuditReplay, Backing, BackingState, View, Work, same_state, is_closed, is_resolved, valid_name,
  valid_birth, backing, contains, charged_bytes, owner_charged,
}

-- The identity lacks a part.
unfoldable pub is_incomplete : BackingIdentity → Bool
is_incomplete i =
    not (valid_birth i.owner)
    || not (valid_name i.owner_incarnation)
    || i.pool_generation == 0
    || i.object_id == 0
    || i.resource_generation == 0
    || i.placement_id == 0
    || i.binding_id == 0
    || i.binding_generation == 0
    || i.owner_lease_id == 0
    || i.reservation_id == 0
    || i.bytes == 0
    || i.memfd_ino == 0

-- A backing that is there shares an id, or the memory file while it is not closed.
unfoldable pub is_reused_by : BackingIdentity → Backing → Bool
is_reused_by i b =
    b.identity.reservation_id == i.reservation_id
    || b.identity.placement_id == i.placement_id
    || b.identity.binding_id == i.binding_id
    || b.identity.owner_lease_id == i.owner_lease_id
    || (not (is_closed b.state)
        && (b.identity.memfd_dev == i.memfd_dev && b.identity.memfd_ino == i.memfd_ino))

-- A backing that is there gives the owner, or the pool, another identity.
unfoldable pub is_contradicted_by : BackingIdentity → Backing → Bool
is_contradicted_by i b =
    (bytes_beq b.identity.owner_incarnation i.owner_incarnation
      && (not (same_birth b.identity.owner i.owner)
          || not (b.identity.pool_generation == i.pool_generation)))
    || (not (bytes_beq b.identity.owner_incarnation i.owner_incarnation)
        && b.identity.pool_generation == i.pool_generation)

-- `self.backings.insert(object_id, backing)`
abbrev pub put_backing : AuditReplay → ℕ → Backing → AuditReplay
put_backing s id b = record s { backings = insert id b s.backings }

unfoldable pub register_intent : AuditReplay → BackingIdentity → Result Str AuditReplay
register_intent s i = do
  fail_if (is_incomplete i || is_some (get i.object_id s.backings) || contains i.owner s.terminated)
      (text "invalid or duplicate backing intent")
  fail_if (any_value (is_reused_by i) s.backings) (text "backing identity or reservation reused")
  fail_if (any_value (is_contradicted_by i) s.backings)
      (text "owner incarnation or pool identity mismatch")
  total ← ok_or (checked_add (charged_bytes s) i.bytes) (text "total overflow")
  owner_total ←
      ok_or (checked_add (owner_charged s i.owner_incarnation) i.bytes) (text "owner overflow")
  fail_if (ltb s.domain.total_limit total || ltb s.domain.owner_limit owner_total)
      (text "audit budget exceeded")
  ok (
      put_backing s i.object_id
        (record { identity = i; state = BackingState.provisional; publishing_work = none }))

abbrev pub committed_state : Purpose → BackingState
committed_state immutable = BackingState.active
committed_state staging = BackingState.pending
committed_state probe_only = BackingState.pending

unfoldable pub register_commit : AuditReplay → ℕ → ℕ → Result Str AuditReplay
register_commit s object_id generation = do
  b ← backing s object_id generation
  fail_if (contains b.identity.owner s.terminated) (text "registration owner terminated")
  fail_if (not (same_state b.state BackingState.provisional)) (text "invalid registration commit")
  ok (put_backing s object_id (record b { state = committed_state b.identity.purpose }))

unfoldable pub register_abort : AuditReplay → ℕ → ℕ → Result Str AuditReplay
register_abort s object_id generation = do
  b ← backing s object_id generation
  fail_if (not (same_state b.state BackingState.provisional)) (text "invalid registration abort")
  ok (put_backing s object_id (record b { state = BackingState.retired }))

unfoldable pub revoke : AuditReplay → ℕ → ℕ → Result Str AuditReplay
revoke s object_id generation = do
  b ← backing s object_id generation
  fail_if (not (same_state b.state BackingState.active || same_state b.state BackingState.pending))
      (text "invalid revoke")
  ok (put_backing s object_id (record b { state = BackingState.retired }))

unfoldable pub backing_close_intent : AuditReplay → ℕ → ℕ → Result Str AuditReplay
backing_close_intent s object_id generation = do
  b ← backing s object_id generation
  fail_if (not (same_state b.state BackingState.retired)) (text "invalid backing close intent")
  ok (put_backing s object_id (record b { state = BackingState.closing }))

-- A view of the object that may still be open.
abbrev pub is_open_view_of : ℕ → View → Bool
is_open_view_of object_id v = v.identity.object_id == object_id && not (is_resolved v.state)

-- Work on the object that has not drained.
abbrev pub is_running_on : ℕ → Work → Bool
is_running_on object_id w =
    not w.drained && (w.identity.source_id == object_id || w.identity.target_id == object_id)

unfoldable pub backing_close_done : AuditReplay → ℕ → ℕ → Result Str AuditReplay
backing_close_done s object_id generation = do
  fail_if
      (any_value (is_open_view_of object_id) s.views || any_value (is_running_on object_id) s.works)
      (text "backing has unresolved views or work")
  b ← backing s object_id generation
  fail_if (not (same_state b.state BackingState.closing)) (text "missing backing close intent")
  ok (put_backing s object_id (record b { state = BackingState.closed }))

-- `backing_can_close`
abbrev pub is_retired : Result Str Backing → Bool
is_retired (Result.err e) = false
is_retired (ok b) = same_state b.state BackingState.retired

unfoldable pub backing_can_close : AuditReplay → ℕ → ℕ → Bool
backing_can_close s object_id generation =
    is_retired (backing s object_id generation)
    && (not (any_value (is_open_view_of object_id) s.views)
        && not (any_value (is_running_on object_id) s.works))
