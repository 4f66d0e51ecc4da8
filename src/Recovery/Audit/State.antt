-- ===== src/Recovery/Audit/State.antt =====
-- `AuditReplay` of crates/uf-daemon/src/ddr_recovery_audit.rs: its state, its helpers and what it counts.
use uflow.Prelude.{
  ℕ, ◌+◌, ◌%◌, List, [], ◌∷◌, ◌++◌, Bool, true, false, ◌&&◌, ◌||◌, not, Option, none, some, Result,
  ok, ◌>>=◌, ◌>>◌, fail_if, ok_or, ◌==◌, ltb, leb, length, checked_add, if◌then◌else◌, u64_mod,
  nat_key, bytes_beq,
}
use uflow.Prelude.Text.{Str, text, is_empty}
use uflow.Prelude.Maps.{Map, get}
use uflow.Recovery.Audit.Types.{
  ProcessBirth, Domain, BackingIdentity, ViewIdentity, WorkIdentity, DrainSnapshot, same_birth,
}

pub data BackingState : Type 0 where
  provisional active pending publishing retired closing closed : BackingState

pub data ViewState : Type 0 where
  intent active possibly_exposed closing closed not_sent : ViewState

pub record Backing : Type 0 where
  pub identity : BackingIdentity
  pub state : BackingState
  pub publishing_work : Option ℕ

pub record View : Type 0 where
  pub identity : ViewIdentity
  pub state : ViewState

pub record Work : Type 0 where
  pub identity : WorkIdentity
  pub cancelled : Bool
  pub drained : Bool
  pub verified : Bool
  pub io_completed : Bool

pub record AuditReplay : Type 0 where
  pub domain : Domain
  pub epoch : ℕ
  pub broker_birth : Option ProcessBirth
  pub backings : Map ℕ Backing
  pub views : Map ℕ View
  pub works : Map ℕ Work
  pub terminated : List ProcessBirth
  pub drained : Bool
  pub drained_snapshot : Option DrainSnapshot
  pub checkpointed : Bool

-- `state == BackingState::...`
abbrev pub same_state : BackingState → BackingState → Bool
same_state BackingState.provisional BackingState.provisional = true
same_state BackingState.active BackingState.active = true
same_state BackingState.pending BackingState.pending = true
same_state BackingState.publishing BackingState.publishing = true
same_state BackingState.retired BackingState.retired = true
same_state BackingState.closing BackingState.closing = true
same_state BackingState.closed BackingState.closed = true
same_state _ _ = false

abbrev pub is_closed : BackingState → Bool
is_closed BackingState.closed = true
is_closed _ = false

-- `matches!(state, ViewState::Closed | ViewState::NotSent)`
abbrev pub is_resolved : ViewState → Bool
is_resolved ViewState.closed = true
is_resolved ViewState.not_sent = true
is_resolved _ = false

abbrev pub is_intent : ViewState → Bool
is_intent ViewState.intent = true
is_intent _ = false

abbrev pub is_active : ViewState → Bool
is_active ViewState.active = true
is_active _ = false

abbrev pub is_closing : ViewState → Bool
is_closing ViewState.closing = true
is_closing _ = false

-- `b.is_ascii_alphanumeric() || b"._-".contains(&b)`
abbrev pub is_token_byte : ℕ → Bool
is_token_byte b =
    (leb 48 b && leb b 57)
    || (leb 65 b && leb b 90)
    || (leb 97 b && leb b 122)
    || b == 46
    || b == 95
    || b == 45

unfoldable pub all_bytes : (ℕ → Bool) → Str → Bool
all_bytes test [] = true
all_bytes test (b ∷ bs) = test b && all_bytes test bs

-- `valid_name`
unfoldable pub valid_name : Str → Bool
valid_name value = not (is_empty value) && (leb (length value) 96 && all_bytes is_token_byte value)

-- `valid_birth`; a positive `i32` is below 2 ^ 31.
unfoldable pub valid_birth : ProcessBirth → Bool
valid_birth birth =
    ltb 0 birth.pid
    && (ltb birth.pid 0x8000_0000
        && (not (birth.pid_namespace_ino == 0) && not (birth.starttime_ticks == 0)))

abbrev pub ends_within : ℕ → Option ℕ → Bool
ends_within size none = false
ends_within size (some end) = leb end size

-- `range`
unfoldable pub range : ℕ → ℕ → ℕ → Bool
range offset bytes size = not (bytes == 0) && ends_within size (checked_add offset bytes)

-- `AuditReplay::new`
unfoldable pub new : Domain → Result Str AuditReplay
new domain = do
  fail_if
      (not (valid_name domain.host)
        || not (valid_name domain.boot)
        || not (valid_name domain.domain)
        || not (valid_name domain.broker)
        || domain.cap_revision == 0
        || domain.owner_limit == 0
        || ltb domain.total_limit domain.owner_limit)
      (text "invalid audit domain")
  ok (record {
    domain = domain;
    epoch = 0;
    broker_birth = none;
    backings = [];
    views = [];
    works = [];
    terminated = [];
    drained = false;
    drained_snapshot = none;
    checkpointed = false;
  })

-- `AuditReplay::backing`, and `backing_mut`
unfoldable pub backing : AuditReplay → ℕ → ℕ → Result Str Backing
backing s object_id generation = do
  b ← ok_or (get object_id s.backings) (text "unknown backing")
  fail_if (not (b.identity.resource_generation == generation)) (text "backing generation mismatch")
  ok b

-- `AuditReplay::view_mut`
unfoldable pub view_mut : AuditReplay → ℕ → ℕ → Result Str View
view_mut s view_id lease_id = do
  v ← ok_or (get view_id s.views) (text "unknown view")
  fail_if (not (v.identity.lease_id == lease_id)) (text "view lease mismatch")
  ok v

-- `.contains(birth)`
unfoldable pub contains : ProcessBirth → List ProcessBirth → Bool
contains birth [] = false
contains birth (b ∷ bs) = same_birth b birth || contains birth bs

-- The sum of a number over the values of a map.
unfoldable pub total {ℓ} : {V : Type ℓ} → (V → ℕ) → Map ℕ V → ℕ
total f [] = 0
total f ((k, v) ∷ m) = f v + total f m

-- `m.values().filter(test).count()`
abbrev pub count {ℓ} : {V : Type ℓ} → (V → Bool) → Map ℕ V → ℕ
count test m = total (λ v. if test v then 1 else 0) m

abbrev pub charge : Backing → ℕ
charge b = if is_closed b.state then 0 else b.identity.bytes

abbrev pub charge_of : Str → Backing → ℕ
charge_of owner b = if bytes_beq b.identity.owner_incarnation owner then charge b else 0

-- `charged_bytes`; the additions of the sum wrap.
unfoldable pub charged_bytes : AuditReplay → ℕ
charged_bytes s = total charge s.backings % u64_mod

-- `owner_charged`
unfoldable pub owner_charged : AuditReplay → Str → ℕ
owner_charged s owner = total (charge_of owner) s.backings % u64_mod

-- `if !holders.contains(...) { holders.push(...) }`
unfoldable pub add_holder : ProcessBirth → List ProcessBirth → List ProcessBirth
add_holder birth holders = if contains birth holders then holders else holders ++ (birth ∷ [])

unfoldable pub add_owners : Map ℕ Backing → List ProcessBirth → List ProcessBirth
add_owners [] holders = holders
add_owners ((k, b) ∷ m) holders =
    add_owners m (if is_closed b.state then holders else add_holder b.identity.owner holders)

unfoldable pub add_accessors : Map ℕ View → List ProcessBirth → List ProcessBirth
add_accessors [] holders = holders
add_accessors ((k, v) ∷ m) holders =
    add_accessors m
      (if is_resolved v.state then holders else add_holder v.identity.accessor holders)

unfoldable pub add_all : List ProcessBirth → List ProcessBirth → List ProcessBirth
add_all [] holders = holders
add_all (b ∷ bs) holders = add_all bs (add_holder b holders)

-- `unresolved_holders`
unfoldable pub unresolved_holders : AuditReplay → List ProcessBirth
unresolved_holders s = add_all s.terminated (add_accessors s.views (add_owners s.backings []))

-- `active_work`
unfoldable pub active_work : AuditReplay → ℕ
active_work s = count (λ w. not w.drained) s.works

-- `observed_drain`
unfoldable pub observed_drain : AuditReplay → ℕ → ℕ → DrainSnapshot
observed_drain s handlers reservations = record {
  handlers = handlers;
  pending_handoffs =
      (count (λ b. same_state b.state BackingState.provisional) s.backings
        + count (λ v. is_intent v.state) s.views)
      % u64_mod;
  retained_backings = count (λ b. not (is_closed b.state)) s.backings;
  active_views = count (λ v. is_active v.state || is_closing v.state) s.views;
  reservations = reservations;
  in_flight = active_work s;
  potential_holders = length (unresolved_holders s);
}
