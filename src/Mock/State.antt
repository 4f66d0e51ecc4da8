-- ===== src/Mock/State.antt =====
-- `MockState` of crates/uf-daemon/src/providers/mock.rs, with what its handlers share.
use uflow.Prelude.{
  ℕ, zero, suc, ◌+◌, ◌*◌, ◌%◌, List, [], ◌∷◌, ◌++◌, Bool, Result, ok, err, ◌==◌, ◌||◌, ltb, leb,
  if◌then◌else◌, checked_add, Option, none, some, length, take, drop,
}
use uflow.Prelude.Text.{Str, text, to_decimal}
use uflow.Prelude.Maps.{Map}
use uflow.Provider.Types.{
  ProviderError, ErrorCode, provider_error, range_out_of_bounds, ProviderIdentity, ResourceRef,
  provider_only,
}
use uflow.Provider.Operation.{ProviderCapabilities}
use uflow.Provider.Completion.{Snapshot}

pub record MockResource : Type 0 where
  pub generation : ℕ
  pub bytes : List ℕ

pub record MockAccess : Type 0 where
  pub generation : ℕ
  pub source_resource_id : Str
  pub source_generation : ℕ
  pub allowed_offset_bytes : ℕ
  pub allowed_bytes : ℕ
  pub access_mode : Str

pub record MockState : Type 0 where
  pub next_resource_id : ℕ
  pub next_access_id : ℕ
  pub next_completion_id : ℕ
  pub resources : Map Str MockResource
  pub accesses : Map Str MockAccess
  pub completions : Map Str Snapshot
  pub counters : Map Str ℕ

-- The fixed part of `MockProvider`.
pub record MockProvider : Type 0 where
  pub identity : ProviderIdentity
  pub capabilities : ProviderCapabilities

-- How a handler ends without an answer: with an error, or by a panic on a slice out of range.
pub data Fault : Type 0 where
  failed : ProviderError → Fault
  panic : Fault

-- `Err(ProviderError::new(code, detail))`
abbrev pub fail {ℓ} : {A : Type ℓ} → ErrorCode → Str → Result Fault A
fail code detail = err (failed (provider_error code detail))

-- `format!("resource-{}", n)`
unfoldable pub resource_id : ℕ → Str
resource_id n = text "resource-" ++ to_decimal n

-- `format!("access-{}", n)`
unfoldable pub access_id : ℕ → Str
access_id n = text "access-" ++ to_decimal n

-- `format!("completion-{}", n)`
unfoldable pub completion_id : ℕ → Str
completion_id n = text "completion-" ++ to_decimal n

pub range_detail : ℕ → ℕ → ℕ → Str
range_detail total offset nbytes =
    text "range offset="
    ++ (to_decimal offset
        ++ (text " bytes=" ++ (to_decimal nbytes ++ (text " exceeds " ++ to_decimal total))))

-- `offset.checked_add(nbytes).is_none() || offset + nbytes > total`
abbrev exceeds : ℕ → Option ℕ → Bool
exceeds total none = Bool.true
exceeds total (some end) = ltb total end

-- `MockProvider::check_range`
unfoldable pub check_range : ℕ → ℕ → ℕ → Result Fault (Unit {0})
check_range total offset nbytes =
    if nbytes == 0 || exceeds total (checked_add offset nbytes)
    then fail range_out_of_bounds (range_detail total offset nbytes)
    else ok tt

-- `&bytes[offset..offset + nbytes]`
unfoldable pub slice : List ℕ → ℕ → ℕ → Result Fault (List ℕ)
slice bytes offset nbytes =
    if leb (offset + nbytes) (length bytes) then ok (take nbytes (drop offset bytes)) else err panic

-- `bytes[offset..offset + new.len()].copy_from_slice(new)`
unfoldable pub overwrite : List ℕ → ℕ → List ℕ → Result Fault (List ℕ)
overwrite bytes offset new =
    if leb (offset + length new) (length bytes)
    then ok (take offset bytes ++ (new ++ drop (offset + length new) bytes))
    else err panic

-- The bytes that `InitializeDeterministic` writes, from the index `index` on.
unfoldable pub seeded : ℕ → ℕ → ℕ → List ℕ
seeded seed_id index zero = []
seeded seed_id index (suc n) =
    ((seed_id % 256 + (index % 256 * 29) % 256) % 256) ∷ seeded seed_id (suc index) n

-- `MockProvider::resource_ref`
unfoldable pub resource_ref : Str → MockResource → ResourceRef
resource_ref id resource = record {
  provider_resource_id = id;
  resource_generation = resource.generation;
  size_bytes = length resource.bytes;
  allowed_offset_bytes = 0;
  allowed_bytes = length resource.bytes;
  addressability = provider_only;
  opaque_token = [];
}
