-- ===== src/Mock/Sharing.antt =====
-- Resources of crates/uf-daemon/src/providers/mock.rs and those who use them: accesses and copies.
use uflow.Prelude.{
  ℕ, ◌+◌, ◌≤◌, ◌≡◌, ◌≢◌, refl, ap, ◌∙◌, List, ok, arith, length, take, drop, some, bytes_key,
  bytes_beq_iff, bytes_beq_refl,
}
use uflow.Prelude.Text.{Str, text}
use uflow.Prelude.Maps.{get, get-insert, get_of_any_value}
use uflow.Bridge.Wire.{checksum64}
use uflow.Provider.Types.{ResourceRef, AccessRef}
use uflow.Provider.Completion.{CompletionResult}
use uflow.Mock.State.{MockState, MockResource, MockAccess, check_range, overwrite, slice}
use uflow.Mock.Execute.{
  execute_release, execute_checksum_resource, execute_checksum_access, execute_copy, is_access_of,
}
use uflow.Mock.Invariant.{Inv}
use uflow.Mock.Ranges.{
  check_range-eq-ok, check_range_complete, slice_total, length_range, slice-overwrite,
  length-overwrite,
}
use uflow.Mock.Effects.{release_effect, copy_effect}

-- The resource that an access reads.
abbrev source_ref : ResourceRef → MockAccess → ResourceRef
source_ref r a = record r {
  provider_resource_id = a.source_resource_id;
  resource_generation = a.source_generation;
}

-- In a state with the invariant, a checksum of a range of one byte or more through a current access, inside its
-- range, is that of the resource behind it at the offset of the access.
pub checksum_access-eq-resource :
    (s : MockState) (a : AccessRef) (r : ResourceRef) (current : MockAccess) (offset nbytes : ℕ)
    → Inv s
    → get a.accessor_resource_id s.accesses ≡ some current
    → a.access_generation ≡ current.generation
    → a.source_resource_generation ≡ current.source_generation
    → offset + nbytes ≤ current.allowed_bytes
    → nbytes ≢ 0
    → execute_checksum_access s a offset nbytes
      ≡ execute_checksum_resource s
          (source_ref r current)
          (current.allowed_offset_bytes + offset)
          nbytes
unfolding execute_checksum_access execute_checksum_resource
checksum_access-eq-resource s a r current offset nbytes v there gen src fits some_bytes =
    let (source, here, live, inside) = v.backed _ current there in
    let size = v.sized _ source here in
    let mode = v.readable _ current there in
    ground (
      arith,
      there,
      here,
      mode,
      bytes_beq_refl (text "read"),
      check_range_complete current.allowed_bytes offset nbytes,
      check_range_complete (length source.bytes) (current.allowed_offset_bytes + offset) nbytes,
      slice_total source.bytes (current.allowed_offset_bytes + offset) nbytes,
    )

-- A resource is not released while an access that was imported from its generation is there.
pub release-ne-ok :
    (s t : MockState) (r : ResourceRef) (k : Str) (a : MockAccess) (c : CompletionResult)
    → get k s.accesses ≡ some a
    → a.source_resource_id ≡ r.provider_resource_id
    → a.source_generation ≡ r.resource_generation
    → execute_release s r ≢ ok (c, t)
release-ne-ok s t r k a c there id gen e =
    let (current, here, live, unread, is) = release_effect s c t r e in
    ground (
      arith,
      get_of_any_value (is_access_of r) k s.accesses {v = a},
      bytes_beq_iff a.source_resource_id r.provider_resource_id,
    )

checksum_of :
    (s : MockState) (r : ResourceRef) (current : MockResource) (o n : ℕ) (range : List ℕ)
    → get r.provider_resource_id s.resources ≡ some current
    → current.generation ≡ r.resource_generation
    → check_range (length current.bytes) o n ≡ ok tt
    → slice current.bytes o n ≡ ok range
    → execute_checksum_resource s r o n
      ≡ ok (CompletionResult.checksum (text "fnv1a64") (checksum64 range), s)
unfolding execute_checksum_resource
checksum_of s r current o n range there live fits cut = ground (arith, there, fits, cut)

generation_of_checksum :
    (s : MockState) (r : ResourceRef) (current : MockResource) (o n : ℕ) (v : CompletionResult)
    → get r.provider_resource_id s.resources ≡ some current
    → execute_checksum_resource s r o n ≡ ok (v, s)
    → current.generation ≡ r.resource_generation
unfolding execute_checksum_resource
generation_of_checksum s r current o n v there e = ground (arith, there)

-- The range that was written reads as what was moved there.
slice_of_written :
    (bytes : List ℕ) (o n : ℕ) (from : List ℕ) (o1 : ℕ) (moved written : List ℕ)
    → check_range (length from) o1 n ≡ ok tt
    → check_range (length bytes) o n ≡ ok tt
    → slice from o1 n ≡ ok moved
    → overwrite bytes o moved ≡ ok written
    → (slice written o n ≡ ok moved) × (check_range (length written) o n ≡ ok tt)
slice_of_written bytes o n from o1 moved written r1 r2 m w =
    let (_, inside, _) = check_range-eq-ok (length from) o1 n r1 in
    let (_, fits, _) = check_range-eq-ok (length bytes) o n r2 in
    let len = length-overwrite bytes o moved written w in
    let is : moved ≡ take n (drop o1 from) = ground (arith, slice_total from o1 n) in
    let size : length moved ≡ n = rw is (length_range from o1 n inside) in
    let (middle, _, _) = slice-overwrite bytes o moved written (omega (arith, size)) w in
    (slice_total written o n (omega (arith, len)) ∙ ap ok (rw size at middle), rw len r2)

-- After a copy to a destination that is there, in its current generation, the checksum of its range is what that
-- of the source's range was before, where the source range had one.
pub checksum_resource-copy :
    (s t : MockState) (a b : ResourceRef) (to : MockResource) (o1 o2 n : ℕ) (c v : CompletionResult)
    → get b.provider_resource_id s.resources ≡ some to
    → to.generation ≡ b.resource_generation
    → execute_copy s a b o1 o2 n ≡ ok (c, t)
    → execute_checksum_resource s a o1 n ≡ ok (v, s)
    → execute_checksum_resource t b o2 n ≡ ok (v, t)
checksum_resource-copy s t a b to o1 o2 n c v here live e sum =
    let (from, to2, there, here2, apart, range1, range2, moved, written, m, w, is) =
      copy_effect s c t a b o1 o2 n e in
    let same : to2 ≡ to = ground (arith, here2) in
    let (cut, range) =
      slice_of_written to2.bytes o2 n from.bytes o1 moved written range1 range2 m w in
    let before =
      checksum_of s a from o1 n moved there (generation_of_checksum s a from o1 n v there sum)
        range1 m in
    let found =
      get-insert b.provider_resource_id b.provider_resource_id (record to2 { bytes = written })
        s.resources in
    let after =
      checksum_of t b (record to2 { bytes = written }) o2 n moved
        (ap (λ u. get b.provider_resource_id u.resources) is
          ∙ found
          ∙ rw (bytes_beq_refl b.provider_resource_id) refl)
        (ap (λ r. r.generation) same ∙ live) range cut in
    ground (arith, before, after)
