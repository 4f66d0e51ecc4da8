-- ===== src/Mock/Preserve.antt =====
-- The operations of crates/uf-daemon/src/providers/mock.rs and the invariant of its state.
use uflow.Prelude.{
  ℕ, ◌+◌, ◌<◌, ◌≤◌, ◌≡◌, refl, sym, ◌∙◌, List, false, ok, arith, length, inl, inr, wrapping_inc,
  u64_mod, Bool-cases, some, bytes_beq, bytes_key, length-replicate,
}
use uflow.Prelude.Text.{Str, text}
use uflow.Prelude.Maps.{
  Map, get, insert, remove, any_value, get-insert, get-remove, get_of_any_value,
}
use uflow.Provider.Types.{ResourceRef}
use uflow.Provider.Operation.{
  Operation, initialize_deterministic, checksum_resource, checksum_access,
}
use uflow.Provider.Completion.{CompletionResult}
use uflow.Mock.State.{MockState, MockResource, MockProvider, resource_id, access_id}
use uflow.Mock.Execute.{execute, is_access_of}
use uflow.Mock.Invariant.{
  Inv, Backed, resource_id-injective, fresh, KeysBelow-insert_next, KeysBelow-update,
  KeysBelow-remove, Backed-insert_fresh, Backed-update, Backed-remove,
}
use uflow.Mock.Ranges.{length-overwrite, check_range-eq-ok}
use uflow.Mock.Effects.{
  allocate_effect, release_effect, initialize_effect, revoke_effect, publish_effect, copy_effect,
  checksum_resource_effect, checksum_access_effect, import_effect, imported,
}

-- A predicate on the values of a map survives an insertion of a value that satisfies it.
values-insert :
    {V : Type 0} (P : V → Type 0) (q : Str) (v : V) (m : Map Str V)
    → P v
    → ((k : Str) (w : V) → get k m ≡ some w → P w)
    → (k : Str) (w : V) → get k (insert q v m) ≡ some w
    → P w
values-insert P q v m new old k w e = elim (Bool-cases (bytes_beq q k)) [
  | inl same ↦
      let is : v ≡ w = ground (arith, rw same at (sym (get-insert q k v m) ∙ e)) in rw (← is) new
  | inr other ↦ old k w (rw other at (sym (get-insert q k v m) ∙ e))
]

values-remove :
    {V : Type 0} (P : V → Type 0) (q : Str) (m : Map Str V)
    → ((k : Str) (w : V) → get k m ≡ some w → P w)
    → (k : Str) (w : V) → get k (remove q m) ≡ some w
    → P w
values-remove P q m old k w e = elim (Bool-cases (bytes_beq q k)) [
  | inl same ↦ absurd (ground (arith, rw same at (sym (get-remove q k m) ∙ e)))
  | inr other ↦ old k w (rw other at (sym (get-remove q k m) ∙ e))
]

-- Neither counter is about to wrap.
pub record HasIds (s : MockState) : Type 0 where
  pub resource_left : s.next_resource_id + 1 < u64_mod
  pub access_left : s.next_access_id + 1 < u64_mod

module _ (s : MockState) (v : Inv s) where
  allocated-Inv :
      (r : MockResource)
      → HasIds s
      → length r.bytes < u64_mod
      → Inv (record s {
        next_resource_id = wrapping_inc s.next_resource_id;
        resources = insert (resource_id s.next_resource_id) r s.resources;
      })
  allocated-Inv r ids size =
      let unused =
        fresh resource_id resource_id-injective s.next_resource_id s.resources v.resource_keys in
      let counts : s.next_resource_id + 1 ≡ wrapping_inc s.next_resource_id = omega (arith, ids) in
      record {
        resource_keys =
            rw (← counts)
              (KeysBelow-insert_next resource_id s.next_resource_id r s.resources v.resource_keys);
        access_keys = v.access_keys;
        sized = values-insert (λ w. length w.bytes < u64_mod) _ r s.resources size v.sized;
        backed = λ k a e. Backed-insert_fresh _ r s.resources a unused (v.backed k a e);
        readable = v.readable;
      }

  -- Overwriting the bytes of a resource in place.
  written-Inv :
      (id : Str) (old : MockResource) (bytes : List ℕ)
      → get id s.resources ≡ some old
      → length bytes ≡ length old.bytes
      → Inv (record s { resources = insert id (record old { bytes = bytes }) s.resources })
  written-Inv id old bytes there len = record {
    resource_keys =
        KeysBelow-update resource_id s.next_resource_id id _ old s.resources there v.resource_keys;
    access_keys = v.access_keys;
    sized =
        values-insert (λ w. length w.bytes < u64_mod) id _ s.resources
          (rw len (v.sized id old there)) v.sized;
    backed = λ k a e. Backed-update id _ old s.resources a there refl len (v.backed k a e);
    readable = v.readable;
  }

  released-Inv :
      (r : ResourceRef) (current : MockResource)
      → get r.provider_resource_id s.resources ≡ some current
      → current.generation ≡ r.resource_generation
      → any_value (is_access_of r) s.accesses ≡ false
      → Inv (record s { resources = remove r.provider_resource_id s.resources })
  released-Inv r current there gen unread = record {
    resource_keys = KeysBelow-remove resource_id s.next_resource_id _ s.resources v.resource_keys;
    access_keys = v.access_keys;
    sized = values-remove (λ w. length w.bytes < u64_mod) _ s.resources v.sized;
    backed = λ k a e.
        Backed-remove r current s.resources a there gen
          (get_of_any_value (is_access_of r) k s.accesses unread e) (v.backed k a e);
    readable = v.readable;
  }

  imported-Inv :
      (id : Str) (source : MockResource) (offset nbytes : ℕ) (mode : Str)
      → HasIds s
      → get id s.resources ≡ some source
      → offset + nbytes ≤ length source.bytes
      → mode ≡ text "read"
      → Inv (record s {
        next_access_id = wrapping_inc s.next_access_id;
        accesses =
            insert (access_id s.next_access_id) (imported id source offset nbytes mode) s.accesses;
      })
  imported-Inv id source offset nbytes mode ids there fits read =
      let counts : s.next_access_id + 1 ≡ wrapping_inc s.next_access_id = omega (arith, ids) in
      record {
        resource_keys = v.resource_keys;
        access_keys =
            rw (← counts)
              (KeysBelow-insert_next access_id s.next_access_id _ s.accesses v.access_keys);
        sized = v.sized;
        backed =
            values-insert (Backed s.resources) _ _ s.accesses (source, there, refl, fits) v.backed;
        readable = values-insert (λ a. a.access_mode ≡ text "read") _ _ s.accesses read v.readable;
      }

  revoked-Inv : (id : Str) → Inv (record s { accesses = remove id s.accesses })
  revoked-Inv id = record {
    resource_keys = v.resource_keys;
    access_keys = KeysBelow-remove access_id s.next_access_id id s.accesses v.access_keys;
    sized = v.sized;
    backed = values-remove (Backed s.resources) id s.accesses v.backed;
    readable = values-remove (λ a. a.access_mode ≡ text "read") id s.accesses v.readable;
  }

  kept-Inv : {t : MockState} → t ≡ s → Inv t
  kept-Inv e = rw e v

-- An operation that succeeds keeps the invariant, if no id counter is about to wrap and the limit on
-- allocations is a `u64`.
pub execute-Inv :
    (p : MockProvider) (s t : MockState) (op : Operation) (c : CompletionResult)
    → p.capabilities.max_transfer_bytes < u64_mod
    → HasIds s
    → Inv s
    → execute p s op ≡ ok (c, t)
    → Inv t
unfolding execute
execute-Inv p s t (Operation.allocate n _ _ _) c limit ids v e =
    let (_, small, is) = allocate_effect s c t p n e in
    rw is (allocated-Inv s v _ ids (omega (arith, small, limit, length-replicate {0} {A = ℕ} n 0)))
execute-Inv p s t (Operation.release r) c limit ids v e =
    let (current, there, gen, unread, is) = release_effect s c t r e in
    rw is (released-Inv s v r current there gen unread)
execute-Inv p s t (initialize_deterministic r o n seed) c limit ids v e =
    let (current, there, _, _, written, w, is) = initialize_effect s c t r o n seed e in
    rw is (written-Inv s v _ current written there (length-overwrite current.bytes o _ written w))
execute-Inv p s t (Operation.publish r o n mode) c limit ids v e =
    kept-Inv s v (publish_effect s c t p r o n mode e)
execute-Inv p s t (Operation.import d _ o n mode) c limit ids v e =
    let (source, there, _, range, _, read, is) = import_effect s c t p d o n mode e in
    rw is (
      imported-Inv s v _ source o n mode ids there
        (check_range-eq-ok (length source.bytes) o n range).1 read)
execute-Inv p s t (Operation.revoke a) c limit ids v e =
    rw (revoke_effect s c t a e) (revoked-Inv s v _)
execute-Inv p s t (checksum_resource r o n) c limit ids v e =
    kept-Inv s v (checksum_resource_effect s c t r o n e)
execute-Inv p s t (checksum_access a o n) c limit ids v e =
    kept-Inv s v (checksum_access_effect s c t a o n e)
execute-Inv p s t (Operation.copy a b o1 o2 n) c limit ids v e =
    let (from, to, _, there, _, _, _, moved, written, _, w, is) = copy_effect s c t a b o1 o2 n e in
    rw is (written-Inv s v _ to written there (length-overwrite to.bytes o2 moved written w))
