-- ===== src/Recovery/Audit/Views.antt =====
-- The events on views of crates/uf-daemon/src/ddr_recovery_audit.rs, an arm of `apply` to a definition.
use uflow.Prelude.{
  ℕ, is_some, ◌+◌, ◌%◌, Bool, ◌&&◌, ◌||◌, not, Option, none, some, Result, ok, ◌>>=◌, ◌>>◌, fail_if,
  ok_or, ◌==◌, ltb, checked_add, nat_key, bytes_beq, u64_mod,
}
use uflow.Prelude.Text.{Str, text}
use uflow.Prelude.Maps.{get, insert, any_value}
use uflow.Recovery.Audit.Types.{ViewIdentity, same_birth}
use uflow.Recovery.Audit.State.{
  AuditReplay, BackingState, View, ViewState, same_state, is_intent, is_active, is_closing,
  valid_name, valid_birth, backing, view_mut, contains, range, ends_within,
}

unfoldable pub is_incomplete_view : ViewIdentity → Bool
is_incomplete_view i =
    not (valid_birth i.accessor)
    || not (valid_name i.accessor_incarnation)
    || i.client_id == 0
    || i.view_id == 0
    || i.lease_id == 0
    || i.handoff_id == 0

-- A view that is there has the lease or the handoff.
unfoldable pub is_shared_with : ViewIdentity → View → Bool
is_shared_with i v = v.identity.lease_id == i.lease_id || v.identity.handoff_id == i.handoff_id

-- A view that is there gives the client, or the accessor, another identity.
unfoldable pub is_denied_by : ViewIdentity → View → Bool
is_denied_by i v =
    (v.identity.client_id == i.client_id
      && (not (same_birth v.identity.accessor i.accessor)
          || not (bytes_beq v.identity.accessor_incarnation i.accessor_incarnation)))
    || (bytes_beq v.identity.accessor_incarnation i.accessor_incarnation
        && (not (same_birth v.identity.accessor i.accessor)
            || not (v.identity.client_id == i.client_id)))

-- The view does not lie inside the view `parent`, of the same accessor.
unfoldable pub is_outside_parent : ViewIdentity → View → Bool
is_outside_parent i parent =
    not (is_active parent.state)
    || not (parent.identity.object_id == i.object_id)
    || not (parent.identity.resource_generation == i.resource_generation)
    || not (same_birth parent.identity.accessor i.accessor)
    || not (parent.identity.client_id == i.client_id)
    || not (bytes_beq parent.identity.accessor_incarnation i.accessor_incarnation)
    || ltb i.offset parent.identity.offset
    || not (
        ends_within ((parent.identity.offset + parent.identity.bytes) % u64_mod)
          (checked_add i.offset i.bytes))

unfoldable pub check_parent : AuditReplay → ViewIdentity → Option ℕ → Result Str (Unit {0})
check_parent s i none = ok tt
check_parent s i (some parent_id) = do
  parent ← ok_or (get parent_id s.views) (text "missing parent view")
  fail_if (is_outside_parent i parent) (text "invalid parent view")
  ok tt

-- `self.views.insert(view_id, view)`
abbrev pub put_view : AuditReplay → ℕ → View → AuditReplay
put_view s id v = record s { views = insert id v s.views }

unfoldable pub view_intent : AuditReplay → ViewIdentity → Result Str AuditReplay
view_intent s i = do
  fail_if
      (is_incomplete_view i
        || is_some (get i.view_id s.views)
        || any_value (is_shared_with i) s.views
        || any_value (λ b. b.identity.owner_lease_id == i.lease_id) s.backings)
      (text "invalid or duplicate view intent")
  fail_if (any_value (is_denied_by i) s.views)
      (text "accessor incarnation or client identity mismatch")
  b ← backing s i.object_id i.resource_generation
  fail_if
      (not (same_state b.state BackingState.active)
        || contains b.identity.owner s.terminated
        || contains i.accessor s.terminated
        || not (range i.offset i.bytes b.identity.bytes))
      (text "view source or range invalid")
  check_parent s i i.parent_view_id
  ok (put_view s i.view_id (record { identity = i; state = ViewState.intent }))

unfoldable pub view_commit : AuditReplay → ℕ → ℕ → Result Str AuditReplay
view_commit s view_id lease_id = do
  v ← ok_or (get view_id s.views) (text "unknown view")
  b ← backing s v.identity.object_id v.identity.resource_generation
  fail_if
      (not (v.identity.lease_id == lease_id)
        || not (same_state b.state BackingState.active)
        || contains b.identity.owner s.terminated
        || contains v.identity.accessor s.terminated)
      (text "view source retired or lease mismatched")
  fail_if (not (is_intent v.state)) (text "invalid view commit")
  ok (put_view s view_id (record v { state = ViewState.active }))

-- A failed send, acknowledgement or undo may still have delivered the file.
unfoldable pub view_abort : AuditReplay → ℕ → ℕ → Result Str AuditReplay
view_abort s view_id lease_id = do
  v ← view_mut s view_id lease_id
  fail_if (not (is_intent v.state)) (text "invalid view abort")
  ok (put_view s view_id (record v { state = ViewState.possibly_exposed }))

unfoldable pub view_commit_unconfirmed : AuditReplay → ℕ → ℕ → Result Str AuditReplay
view_commit_unconfirmed s view_id lease_id = do
  v ← view_mut s view_id lease_id
  fail_if (not (is_active v.state)) (text "view was not committed")
  ok (put_view s view_id (record v { state = ViewState.possibly_exposed }))

unfoldable pub view_not_sent : AuditReplay → ℕ → ℕ → Result Str AuditReplay
view_not_sent s view_id lease_id = do
  v ← view_mut s view_id lease_id
  fail_if (not (is_intent v.state)) (text "not-sent proof is too late")
  ok (put_view s view_id (record v { state = ViewState.not_sent }))

unfoldable pub view_peer_terminated : AuditReplay → ℕ → ℕ → Result Str AuditReplay
view_peer_terminated s view_id lease_id = do
  seen ← ok_or (get view_id s.views) (text "unknown view")
  fail_if (not (contains seen.identity.accessor s.terminated))
      (text "view accessor termination was not observed")
  v ← view_mut s view_id lease_id
  fail_if (not (is_intent v.state || is_active v.state)) (text "terminated view is not live")
  ok (put_view s view_id (record v { state = ViewState.possibly_exposed }))

unfoldable pub view_close_intent : AuditReplay → ℕ → ℕ → Result Str AuditReplay
view_close_intent s view_id lease_id = do
  v ← view_mut s view_id lease_id
  fail_if (not (is_active v.state)) (text "view has no committed release")
  ok (put_view s view_id (record v { state = ViewState.closing }))

unfoldable pub view_close_done : AuditReplay → ℕ → ℕ → Result Str AuditReplay
view_close_done s view_id lease_id = do
  v ← view_mut s view_id lease_id
  fail_if (not (is_closing v.state)) (text "missing view close intent")
  ok (put_view s view_id (record v { state = ViewState.closed }))
