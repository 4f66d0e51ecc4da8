-- ===== src/Mock/Effects.antt =====
-- What each handler of crates/uf-daemon/src/providers/mock.rs has done when it succeeds.
use uflow.Prelude.{
  ℕ, ◌≤◌, ◌≡◌, ◌≢◌, List, false, ok, arith, length, inl, inr, replicate, wrapping_inc, Option-cases,
  Result-cases, some, bytes_beq, bytes_key, bytes_beq_iff,
}
use uflow.Prelude.Text.{Str, text}
use uflow.Prelude.Maps.{get, insert, remove, any_value}
use uflow.Provider.Types.{ResourceRef, AccessRef, Descriptor}
use uflow.Provider.Completion.{CompletionResult}
use uflow.Mock.State.{
  MockState, MockResource, MockAccess, MockProvider, resource_id, access_id, check_range, overwrite,
  slice, seeded,
}
use uflow.Mock.Execute.{
  execute_allocate, execute_release, execute_initialize, execute_publish, execute_import,
  execute_revoke, execute_checksum_resource, execute_checksum_access, execute_copy, is_access_of,
  decode_resource_id,
}

module _ (s : MockState) (c : CompletionResult) (t : MockState) where
  pub allocate_effect :
      (p : MockProvider) (n : ℕ)
      → execute_allocate p s n ≡ ok (c, t)
      → (n ≢ 0)
        × (n ≤ p.capabilities.max_transfer_bytes)
        × (t ≡ record s {
          next_resource_id = wrapping_inc s.next_resource_id;
          resources =
              insert
                (resource_id s.next_resource_id)
                (record { generation = 1; bytes = replicate n 0 })
                s.resources;
        })
  unfolding execute_allocate
  allocate_effect p n e = ground arith

  pub release_effect :
      (r : ResourceRef)
      → execute_release s r ≡ ok (c, t)
      → (current : MockResource) × (get r.provider_resource_id s.resources ≡ some current)
        × (current.generation ≡ r.resource_generation)
        × (any_value (is_access_of r) s.accesses ≡ false)
        × (t ≡ record s { resources = remove r.provider_resource_id s.resources })
  unfolding execute_release
  release_effect r e = elim (Option-cases (get r.provider_resource_id s.resources)) [
    | inl gone ↦ absurd (ground (arith, gone))
    | inr (current, there) ↦
        (current, there, ground (arith, there), ground (arith, there), ground (arith, there))
  ]

  pub initialize_effect :
      (r : ResourceRef) (offset nbytes seed_id : ℕ)
      → execute_initialize s r offset nbytes seed_id ≡ ok (c, t)
      → (current : MockResource) × (get r.provider_resource_id s.resources ≡ some current)
        × (current.generation ≡ r.resource_generation)
        × (check_range (length current.bytes) offset nbytes ≡ ok tt)
        × (written : List ℕ) × (overwrite current.bytes offset (seeded seed_id 0 nbytes)
            ≡ ok written)
        × (t ≡ record s {
          resources =
              insert r.provider_resource_id (record current { bytes = written }) s.resources;
        })
  unfolding execute_initialize
  initialize_effect r offset nbytes seed_id e =
      elim (Option-cases (get r.provider_resource_id s.resources)) [
        | inl gone ↦ absurd (ground (arith, gone))
        | inr (current, there) ↦
            elim (Result-cases (overwrite current.bytes offset (seeded seed_id 0 nbytes))) [
              | inl (written, w) ↦ (
                current,
                there,
                ground (arith, there),
                ground (arith, there),
                written,
                w,
                ground (arith, there, w),
              )
              | inr (x, w) ↦ absurd (ground (arith, there, w))
            ]
      ]

  pub revoke_effect :
      (a : AccessRef)
      → execute_revoke s a ≡ ok (c, t)
      → t ≡ record s { accesses = remove a.accessor_resource_id s.accesses }
  unfolding execute_revoke
  revoke_effect a e = ground arith

  pub publish_effect :
      (p : MockProvider) (r : ResourceRef) (offset nbytes : ℕ) (mode : Str)
      → execute_publish p s r offset nbytes mode ≡ ok (c, t)
      → t ≡ s
  unfolding execute_publish
  publish_effect p r offset nbytes mode e = ground arith

  pub checksum_resource_effect :
      (r : ResourceRef) (offset nbytes : ℕ)
      → execute_checksum_resource s r offset nbytes ≡ ok (c, t)
      → t ≡ s
  unfolding execute_checksum_resource
  checksum_resource_effect r offset nbytes e = ground arith

  pub checksum_access_effect :
      (a : AccessRef) (offset nbytes : ℕ)
      → execute_checksum_access s a offset nbytes ≡ ok (c, t)
      → t ≡ s
  unfolding execute_checksum_access
  checksum_access_effect a offset nbytes e = ground arith

  -- A copy reads one resource and writes another.
  pub copy_effect :
      (source destination : ResourceRef) (from_offset to_offset nbytes : ℕ)
      → execute_copy s source destination from_offset to_offset nbytes ≡ ok (c, t)
      → (from to : MockResource) × (get source.provider_resource_id s.resources ≡ some from)
        × (get destination.provider_resource_id s.resources ≡ some to)
        × (bytes_beq source.provider_resource_id destination.provider_resource_id ≡ false)
        × (check_range (length from.bytes) from_offset nbytes ≡ ok tt)
        × (check_range (length to.bytes) to_offset nbytes ≡ ok tt)
        × (moved written : List ℕ) × (slice from.bytes from_offset nbytes ≡ ok moved)
        × (overwrite to.bytes to_offset moved ≡ ok written)
        × (t ≡ record s {
          resources =
              insert destination.provider_resource_id (record to { bytes = written }) s.resources;
        })
  unfolding execute_copy
  copy_effect source destination from_offset to_offset nbytes e =
      elim (Option-cases (get source.provider_resource_id s.resources)) [
        | inl gone ↦ absurd (ground (arith, gone))
        | inr (from, there) ↦
            elim (Option-cases (get destination.provider_resource_id s.resources)) [
              | inl gone ↦ absurd (ground (arith, there, gone))
              | inr (to, here) ↦ elim (Result-cases (slice from.bytes from_offset nbytes)) [
                | inr (x, bad) ↦ absurd (ground (arith, there, here, bad))
                | inl (moved, m) ↦ elim (Result-cases (overwrite to.bytes to_offset moved)) [
                  | inr (x, bad) ↦ absurd (ground (arith, there, here, m, bad))
                  | inl (written, w) ↦ (
                    from,
                    to,
                    there,
                    here,
                    ground (arith, there, here, m, w),
                    ground (arith, there, here, m, w),
                    ground (arith, there, here, m, w),
                    moved,
                    written,
                    m,
                    w,
                    ground (arith, there, here, m, w),
                  )
                ]
              ]
            ]
      ]

-- The access that an import of a range of `id` adds.
abbrev pub imported : Str → MockResource → ℕ → ℕ → Str → MockAccess
imported id source offset nbytes mode = record {
  generation = 1;
  source_resource_id = id;
  source_generation = source.generation;
  allowed_offset_bytes = offset;
  allowed_bytes = nbytes;
  access_mode = mode;
}

pub decode_resource_id-eq-ok :
    (d : Descriptor) (id : Str) → decode_resource_id d ≡ ok id → id ≡ d.opaque_bytes
unfolding decode_resource_id
decode_resource_id-eq-ok d id e = ground arith

module _ (s : MockState) (c : CompletionResult) (t : MockState) where
  pub import_effect :
      (p : MockProvider) (d : Descriptor) (offset nbytes : ℕ) (mode : Str)
      → execute_import p s d offset nbytes mode ≡ ok (c, t)
      → (source : MockResource) × (get d.opaque_bytes s.resources ≡ some source)
        × (source.generation ≡ d.resource_generation)
        × (check_range (length source.bytes) offset nbytes ≡ ok tt)
        × (d.allowed_offset_bytes ≤ offset)
        × (mode ≡ text "read")
        × (t ≡ record s {
          next_access_id = wrapping_inc s.next_access_id;
          accesses =
              insert
                (access_id s.next_access_id)
                (imported d.opaque_bytes source offset nbytes mode)
                s.accesses;
        })
  unfolding execute_import decode_resource_id
  import_effect p d offset nbytes mode e = elim (Option-cases (get d.opaque_bytes s.resources)) [
    | inl gone ↦ absurd (ground (arith, gone))
    | inr (source, there) ↦ (
      source,
      there,
      ground (arith, there),
      ground (arith, there),
      ground (arith, there),
      ground (arith, there, bytes_beq_iff mode (text "read")),
      ground (arith, there),
    )
  ]
