-- ===== src/Mock/Panics.antt =====
-- The slices that the operations of crates/uf-daemon/src/providers/mock.rs take.
use uflow.Prelude.{
  ℕ, ◌+◌, ◌%◌, ◌≢◌, err, arith, length, inl, inr, take, drop, u64_mod, Option-cases, bytes_key,
}
use uflow.Prelude.Text.{Str}
use uflow.Prelude.Maps.{get}
use uflow.Provider.Types.{ResourceRef, AccessRef, Descriptor}
use uflow.Provider.Operation.{
  Operation, initialize_deterministic, checksum_resource, checksum_access,
}
use uflow.Mock.State.{MockState, MockProvider, panic, seeded}
use uflow.Mock.Execute.{
  execute_allocate, execute_release, execute_initialize, execute_publish, execute_import,
  execute_revoke, execute_checksum_resource, execute_checksum_access, execute_copy, execute,
  decode_resource_id,
}
use uflow.Mock.Invariant.{Inv}
use uflow.Mock.Ranges.{
  check_range-eq-ok, check_range-ne-panic, overwrite_total, slice_total, length-seeded,
  length_range,
}

module _ (s : MockState) where
  allocate-ne-panic : (p : MockProvider) (n : ℕ) → execute_allocate p s n ≢ err panic
  unfolding execute_allocate
  allocate-ne-panic p n e = ground arith

  release-ne-panic : (r : ResourceRef) → execute_release s r ≢ err panic
  unfolding execute_release
  release-ne-panic r e = ground arith

  initialize-ne-panic :
      (r : ResourceRef) (o n seed : ℕ) → execute_initialize s r o n seed ≢ err panic
  unfolding execute_initialize
  initialize-ne-panic r o n seed e = elim (Option-cases (get r.provider_resource_id s.resources)) [
    | inl gone ↦ ground (arith, gone)
    | inr (current, there) ↦ ground (
      arith,
      there,
      check_range-ne-panic (length current.bytes) o n,
      check_range-eq-ok (length current.bytes) o n,
      overwrite_total current.bytes o (seeded seed 0 n),
      length-seeded seed 0 n,
    )
  ]

  publish-ne-panic :
      (p : MockProvider) (r : ResourceRef) (o n : ℕ) (mode : Str)
      → execute_publish p s r o n mode ≢ err panic
  unfolding execute_publish
  publish-ne-panic p r o n mode e = elim (Option-cases (get r.provider_resource_id s.resources)) [
    | inl gone ↦ ground (arith, gone)
    | inr (current, there) ↦ ground (arith, there, check_range-ne-panic (length current.bytes) o n)
  ]

  import-ne-panic :
      (p : MockProvider) (d : Descriptor) (o n : ℕ) (mode : Str)
      → execute_import p s d o n mode ≢ err panic
  unfolding execute_import decode_resource_id
  import-ne-panic p d o n mode e = elim (Option-cases (get d.opaque_bytes s.resources)) [
    | inl gone ↦ ground (arith, gone)
    | inr (source, there) ↦ ground (arith, there, check_range-ne-panic (length source.bytes) o n)
  ]

  revoke-ne-panic : (a : AccessRef) → execute_revoke s a ≢ err panic
  unfolding execute_revoke
  revoke-ne-panic a e = ground arith

  checksum_resource-ne-panic :
      (r : ResourceRef) (o n : ℕ) → execute_checksum_resource s r o n ≢ err panic
  unfolding execute_checksum_resource
  checksum_resource-ne-panic r o n e =
      elim (Option-cases (get r.provider_resource_id s.resources)) [
        | inl gone ↦ ground (arith, gone)
        | inr (current, there) ↦ ground (
          arith,
          there,
          check_range-ne-panic (length current.bytes) o n,
          check_range-eq-ok (length current.bytes) o n,
          slice_total current.bytes o n,
        )
      ]

  checksum_access-ne-panic :
      (a : AccessRef) (o n : ℕ) → Inv s → execute_checksum_access s a o n ≢ err panic
  unfolding execute_checksum_access
  checksum_access-ne-panic a o n v e = elim (Option-cases (get a.accessor_resource_id s.accesses)) [
    | inl gone ↦ ground (arith, gone)
    | inr (current, there) ↦
        let (source, here, _, fits) = v.backed _ current there in
        let size = v.sized _ source here in
        ground (
          arith,
          there,
          here,
          fits,
          size,
          check_range-ne-panic current.allowed_bytes o n,
          check_range-eq-ok current.allowed_bytes o n,
          slice_total source.bytes ((current.allowed_offset_bytes + o) % u64_mod) n,
        )
  ]

  copy-ne-panic : (a b : ResourceRef) (o1 o2 n : ℕ) → execute_copy s a b o1 o2 n ≢ err panic
  unfolding execute_copy
  copy-ne-panic a b o1 o2 n e = elim (Option-cases (get a.provider_resource_id s.resources)) [
    | inl gone ↦ ground (arith, gone)
    | inr (from, there) ↦ elim (Option-cases (get b.provider_resource_id s.resources)) [
      | inl gone ↦ ground (
        arith,
        there,
        gone,
        check_range-ne-panic (length from.bytes) o1 n,
        check_range-eq-ok (length from.bytes) o1 n,
        slice_total from.bytes o1 n,
      )
      | inr (to, here) ↦ ground (
        arith,
        there,
        here,
        check_range-ne-panic (length from.bytes) o1 n,
        check_range-eq-ok (length from.bytes) o1 n,
        slice_total from.bytes o1 n,
        length_range from.bytes o1 n,
        check_range-ne-panic (length to.bytes) o2 n,
        check_range-eq-ok (length to.bytes) o2 n,
        overwrite_total to.bytes o2 (take n (drop o1 from.bytes)),
      )
    ]
  ]

-- In a state with the invariant no operation panics: the slices that the handlers take lie inside
-- their resources.
pub execute-ne-panic :
    (p : MockProvider) (s : MockState) (op : Operation) → Inv s → execute p s op ≢ err panic
unfolding execute
execute-ne-panic p s (Operation.allocate n _ _ _) v = allocate-ne-panic s p n
execute-ne-panic p s (Operation.release r) v = release-ne-panic s r
execute-ne-panic p s (initialize_deterministic r o n seed) v = initialize-ne-panic s r o n seed
execute-ne-panic p s (Operation.publish r o n mode) v = publish-ne-panic s p r o n mode
execute-ne-panic p s (Operation.import d _ o n mode) v = import-ne-panic s p d o n mode
execute-ne-panic p s (Operation.revoke a) v = revoke-ne-panic s a
execute-ne-panic p s (checksum_resource r o n) v = checksum_resource-ne-panic s r o n
execute-ne-panic p s (checksum_access a o n) v = checksum_access-ne-panic s a o n v
execute-ne-panic p s (Operation.copy a b o1 o2 n) v = copy-ne-panic s a b o1 o2 n
