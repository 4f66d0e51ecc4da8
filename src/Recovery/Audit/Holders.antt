-- ===== src/Recovery/Audit/Holders.antt =====
-- `unresolved_holders` of crates/uf-daemon/src/ddr_recovery_audit.rs: when there are none.
use uflow.Prelude.{
  ℕ, ◌≤◌, ◌<◌, ◌≡◌, ◌↔◌, refl, Bool, false, not, List, [], ◌∷◌, length, length-append, arith,
  nat_key,
}
use uflow.Prelude.Maps.{Map, any_value}
use uflow.Recovery.Audit.Types.{ProcessBirth}
use uflow.Recovery.Audit.State.{
  AuditReplay, Backing, View, is_closed, is_resolved, contains, add_holder, add_owners,
  add_accessors, add_all, unresolved_holders, total, count,
}

length-add_holder :
    (b : ProcessBirth) (hs : List ProcessBirth)
    → (length hs ≤ length (add_holder b hs)) × (0 < length (add_holder b hs))
unfolding add_holder contains
length-add_holder b [] = (ground arith, ground arith)
length-add_holder b (h ∷ hs) = (
  ground (arith, length-append (h ∷ hs) (b ∷ [])),
  ground (arith, length-append (h ∷ hs) (b ∷ [])),
)

length-add_owners :
    (m : Map ℕ Backing) (hs : List ProcessBirth) → length hs ≤ length (add_owners m hs)
unfolding add_owners
length-add_owners [] hs = ground arith
length-add_owners ((k, b) ∷ m) hs = ground (
  arith,
  length-add_holder b.identity.owner hs,
  length-add_owners m hs,
  length-add_owners m (add_holder b.identity.owner hs),
)

length-add_accessors :
    (m : Map ℕ View) (hs : List ProcessBirth) → length hs ≤ length (add_accessors m hs)
unfolding add_accessors
length-add_accessors [] hs = ground arith
length-add_accessors ((k, v) ∷ m) hs = ground (
  arith,
  length-add_holder v.identity.accessor hs,
  length-add_accessors m hs,
  length-add_accessors m (add_holder v.identity.accessor hs),
)

length-add_all : (bs hs : List ProcessBirth) → length hs ≤ length (add_all bs hs)
unfolding add_all
length-add_all [] hs = ground arith
length-add_all (b ∷ bs) hs =
    ground (arith, length-add_holder b hs, length-add_all bs (add_holder b hs))

owners_none :
    (m : Map ℕ Backing) (hs : List ProcessBirth)
    → length (add_owners m hs) ≡ 0
    → any_value (λ b. not (is_closed b.state)) m ≡ false
unfolding add_owners any_value
owners_none [] hs zero = refl
owners_none ((k, b) ∷ m) hs zero = ground (
  arith,
  length-add_holder b.identity.owner hs,
  owners_none m hs,
  length-add_owners m (add_holder b.identity.owner hs),
)

accessors_none :
    (m : Map ℕ View) (hs : List ProcessBirth)
    → length (add_accessors m hs) ≡ 0
    → any_value (λ v. not (is_resolved v.state)) m ≡ false
unfolding add_accessors any_value
accessors_none [] hs zero = refl
accessors_none ((k, v) ∷ m) hs zero = ground (
  arith,
  length-add_holder v.identity.accessor hs,
  accessors_none m hs,
  length-add_accessors m (add_holder v.identity.accessor hs),
)

all_none : (bs hs : List ProcessBirth) → length (add_all bs hs) ≡ 0 → bs ≡ []
unfolding add_all
all_none [] hs zero = refl
all_none (b ∷ bs) hs zero =
    ground (arith, length-add_holder b hs, length-add_all bs (add_holder b hs))

no_owners :
    (m : Map ℕ Backing) → any_value (λ b. not (is_closed b.state)) m ≡ false → add_owners m [] ≡ []
unfolding add_owners any_value
no_owners [] none_open = refl
no_owners ((k, b) ∷ m) none_open = ground (arith, no_owners m)

no_accessors :
    (m : Map ℕ View)
    → any_value (λ v. not (is_resolved v.state)) m ≡ false
    → add_accessors m [] ≡ []
unfolding add_accessors any_value
no_accessors [] none_open = refl
no_accessors ((k, v) ∷ m) none_open = ground (arith, no_accessors m)

-- Counting none of the values, and none passing.
pub count_none {ℓ} :
    {V : Type ℓ} (test : V → Bool) (m : Map ℕ V) → (count test m ≡ 0) ↔ (any_value test m ≡ false)
unfolding total any_value
count_none test [] = (λ e. refl, λ e. refl)
count_none test ((k, v) ∷ m) =
    let (right, left) = count_none test m in (λ e. ground (arith, right), λ e. ground (arith, left))

-- There are no unresolved holders when all backings are closed, all views are resolved, and no process has been
-- seen to terminate.
pub unresolved_holders-none :
    (s : AuditReplay)
    → (length (unresolved_holders s) ≡ 0) ↔ (
        (any_value (λ b. not (is_closed b.state)) s.backings ≡ false)
        × (any_value (λ v. not (is_resolved v.state)) s.views ≡ false)
        × (s.terminated ≡ []))
unfolding unresolved_holders add_all
unresolved_holders-none s = (
  λ zero. (
    owners_none s.backings [] (
        ground (
          arith,
          zero,
          length-add_all s.terminated (add_accessors s.views (add_owners s.backings [])),
          length-add_accessors s.views (add_owners s.backings []),
        )),
    accessors_none s.views (add_owners s.backings []) (
        ground (
          arith,
          zero,
          length-add_all s.terminated (add_accessors s.views (add_owners s.backings [])),
        )),
    all_none s.terminated (add_accessors s.views (add_owners s.backings [])) zero,
  ),
  λ (backings, views, peers).
      rw (peers, no_owners s.backings backings, no_accessors s.views views) refl,
)
