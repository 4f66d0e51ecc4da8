-- ===== src/Mock/Invariant.antt =====
-- The invariant of crates/uf-daemon/src/providers/mock.rs: keys are ids that were handed out, and every
-- access is backed by a resource of its generation that holds its range.
use uflow.Prelude.{
  ℕ, ◌+◌, ◌<◌, ◌≤◌, ◌≡◌, sym, ◌∙◌, false, arith, length, inl, inr, Bool-cases, bytes_beq,
  bytes_beq_iff, bytes_key, Option-cases, none, some, u64_mod,
}
use uflow.Prelude.Text.{Str, text, to_decimal, to_decimal-injective, append_cancel_left}
use uflow.Prelude.Maps.{Map, get, insert, remove, get-insert, get-remove}
use uflow.Provider.Types.{ResourceRef}
use uflow.Mock.State.{MockState, MockResource, MockAccess, resource_id, access_id}
use uflow.Mock.Execute.{is_access_of}

pub resource_id-injective : (m n : ℕ) → resource_id m ≡ resource_id n → m ≡ n
unfolding resource_id
resource_id-injective m n e =
    to_decimal-injective m n (append_cancel_left (text "resource-") (to_decimal m) (to_decimal n) e)

pub access_id-injective : (m n : ℕ) → access_id m ≡ access_id n → m ≡ n
unfolding access_id
access_id-injective m n e =
    to_decimal-injective m n (append_cancel_left (text "access-") (to_decimal m) (to_decimal n) e)

-- The keys of a map are ids that were handed out before `next`.
abbrev pub KeysBelow : {V : Type 0} → (ℕ → Str) → ℕ → Map Str V → Type 0
KeysBelow {V} id next m = (k : Str) (v : V) → get k m ≡ some v → (j : ℕ) × (k ≡ id j) × (j < next)

-- The access reads a range of a resource that is there, of the generation that was imported.
abbrev pub Backed : Map Str MockResource → MockAccess → Type 0
Backed m a =
    (r : MockResource) × (get a.source_resource_id m ≡ some r)
    × (r.generation ≡ a.source_generation)
    × (a.allowed_offset_bytes + a.allowed_bytes ≤ length r.bytes)

pub record Inv (s : MockState) : Type 0 where
  pub resource_keys : KeysBelow resource_id s.next_resource_id s.resources
  pub access_keys : KeysBelow access_id s.next_access_id s.accesses
  pub sized : (k : Str) (r : MockResource) → get k s.resources ≡ some r → length r.bytes < u64_mod
  pub backed : (k : Str) (a : MockAccess) → get k s.accesses ≡ some a → Backed s.resources a
  pub readable :
      (k : Str) (a : MockAccess) → get k s.accesses ≡ some a → a.access_mode ≡ text "read"

module _ {V : Type 0} (id : ℕ → Str) (injective : (m n : ℕ) → id m ≡ id n → m ≡ n) where
  -- The next id is not in use.
  pub fresh : (next : ℕ) (m : Map Str V) → KeysBelow id next m → get (id next) m ≡ none
  fresh next m below = elim (Option-cases (get (id next) m)) [
    | inl e ↦ e
    | inr (v, e) ↦
        let (j, same, less) = below (id next) v e in absurd (omega (arith, injective next j same))
  ]

module _ {V : Type 0} (id : ℕ → Str) where
  pub KeysBelow-insert_next :
      (next : ℕ) (v : V) (m : Map Str V)
      → KeysBelow id next m
      → KeysBelow id (next + 1) (insert (id next) v m)
  KeysBelow-insert_next next v m below k w e = elim (Bool-cases (bytes_beq (id next) k)) [
    | inl same ↦ (next, sym ((bytes_beq_iff (id next) k).0 same), omega arith)
    | inr other ↦
        let (j, is, less) = below k w (rw other at (sym (get-insert (id next) k v m) ∙ e)) in
        (j, is, omega arith)
  ]

  -- Overwriting the value under a key that is there adds no key.
  pub KeysBelow-update :
      (next : ℕ) (q : Str) (v old : V) (m : Map Str V)
      → get q m ≡ some old
      → KeysBelow id next m
      → KeysBelow id next (insert q v m)
  KeysBelow-update next q v old m there below k w e = elim (Bool-cases (bytes_beq q k)) [
    | inl same ↦ below k old (rw ((bytes_beq_iff q k).0 same) at there)
    | inr other ↦ below k w (rw other at (sym (get-insert q k v m) ∙ e))
  ]

  pub KeysBelow-remove :
      (next : ℕ) (q : Str) (m : Map Str V) → KeysBelow id next m → KeysBelow id next (remove q m)
  KeysBelow-remove next q m below k w e = elim (Bool-cases (bytes_beq q k)) [
    | inl same ↦ absurd (ground (arith, rw same at (sym (get-remove q k m) ∙ e)))
    | inr other ↦ below k w (rw other at (sym (get-remove q k m) ∙ e))
  ]

-- A new resource takes nothing away from an access.
pub Backed-insert_fresh :
    (id : Str) (r : MockResource) (m : Map Str MockResource) (a : MockAccess)
    → get id m ≡ none
    → Backed m a
    → Backed (insert id r m) a
Backed-insert_fresh id r m a free (s, e, g, fits) = (s, kept, g, fits)
  where
    kept : get a.source_resource_id (insert id r m) ≡ some s
    kept =
        ground
          (arith, get-insert id a.source_resource_id r m, bytes_beq_iff id a.source_resource_id)

-- Nor does a resource whose bytes are overwritten in place.
pub Backed-update :
    (id : Str) (new old : MockResource) (m : Map Str MockResource) (a : MockAccess)
    → get id m ≡ some old
    → new.generation ≡ old.generation
    → length new.bytes ≡ length old.bytes
    → Backed m a
    → Backed (insert id new m) a
Backed-update id new old m a there gen len (s, e, g, fits) =
    elim (Bool-cases (bytes_beq id a.source_resource_id)) [
      | inl same ↦
          let is : old ≡ s = ground (arith, bytes_beq_iff id a.source_resource_id) in
          (
            new,
            get-insert id a.source_resource_id new m ∙ rw same,
            ground (arith, is),
            ground (arith, is),
          )
      | inr other ↦ (s, get-insert id a.source_resource_id new m ∙ rw other e, g, fits)
    ]

-- A resource that no access reads can go.
pub Backed-remove :
    (r : ResourceRef) (current : MockResource) (m : Map Str MockResource) (a : MockAccess)
    → get r.provider_resource_id m ≡ some current
    → current.generation ≡ r.resource_generation
    → is_access_of r a ≡ false
    → Backed m a
    → Backed (remove r.provider_resource_id m) a
Backed-remove r current m a there gen unread (s, e, g, fits) = (s, kept, g, fits)
  where
    kept : get a.source_resource_id (remove r.provider_resource_id m) ≡ some s
    kept = ground (
      arith,
      get-remove r.provider_resource_id a.source_resource_id m,
      bytes_beq_iff r.provider_resource_id a.source_resource_id,
      bytes_beq_iff a.source_resource_id r.provider_resource_id,
    )
