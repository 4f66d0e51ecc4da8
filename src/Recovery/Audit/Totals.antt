-- ===== src/Recovery/Audit/Totals.antt =====
-- Sums and tests over the values of a map when one entry is written.
use uflow.Prelude.{ℕ, ◌≤◌, ◌+◌, ◌≡◌, none, some, [], ◌∷◌, nat_key, arith}
use uflow.Prelude.Maps.{Map, get, insert}
use uflow.Recovery.Audit.State.{total}

module _ {ℓ} {V : Type ℓ} (f : V → ℕ) where
  pub total-insert-new :
      (k : ℕ) (v : V) (m : Map ℕ V) → get k m ≡ none → total f (insert k v m) ≡ total f m + f v
  unfolding total get insert
  total-insert-new k v [] free = omega arith
  total-insert-new k v ((j, w) ∷ m) free = ground (arith, total-insert-new k v m)

  pub total-insert-old :
      (k : ℕ) (v : V) (m : Map ℕ V) {old : V}
      → get k m ≡ some old
      → total f (insert k v m) + f old ≡ total f m + f v
  unfolding total get insert
  total-insert-old k v [] {old} there = cc
  total-insert-old k v ((j, w) ∷ m) {old} there = ground (arith, total-insert-old k v m {old = old})

  pub total_member : (k : ℕ) (m : Map ℕ V) {v : V} → get k m ≡ some v → f v ≤ total f m
  unfolding total get
  total_member k [] {v} there = cc
  total_member k ((j, w) ∷ m) {v} there = ground (arith, total_member k m {v = v})
