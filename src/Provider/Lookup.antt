-- ===== src/Provider/Lookup.antt =====
-- What the registry of crates/uf-daemon/src/providers/registry.rs finds.
use uflow.Prelude.{
  ◌≡◌, ◌≢◌, none, ok, if◌then◌else◌, arith, inl, inr, Option-cases, bytes_key, bytes_beq,
  bytes_beq_refl,
}
use uflow.Prelude.Text.{Str}
use uflow.Prelude.Maps.{Map, get, insert, get-insert}
use uflow.Provider.Types.{ProviderIdentity, ProviderHealth}
use uflow.Provider.Registry.{register, require}

module _ {P : Type 0} (identity : P → ProviderIdentity) (health : P → ProviderHealth) where
  register_effect :
      (m n : Map Str P) (p : P)
      → register identity health m p ≡ ok n
      → (get (identity p).provider_id m ≡ none) × (n ≡ insert (identity p).provider_id p m)
  unfolding register
  register_effect m n p e = elim (Option-cases (get (identity p).provider_id m)) [
    | inl free ↦ (free, ground (arith, free))
    | inr (q, there) ↦ absurd (ground (arith, there))
  ]

  -- A provider that has been registered is what is found under its id; under every other id is found what
  -- was found before.
  pub require-register :
      (m n : Map Str P) (p : P) (id : Str)
      → register identity health m p ≡ ok n
      → require n id ≡ (if bytes_beq (identity p).provider_id id then ok p else require m id)
  unfolding require
  require-register m n p id e =
      let (_, is) = register_effect m n p e in
      ground (arith, is, get-insert (identity p).provider_id id p m)

  -- Of the providers with one id only one is registered.
  pub register-register :
      (m n k : Map Str P) (p q : P)
      → register identity health m p ≡ ok n
      → (identity q).provider_id ≡ (identity p).provider_id
      → register identity health n q ≢ ok k
  register-register m n k p q e same again =
      let (_, is) = register_effect m n p e in
      let (gone, _) = register_effect n k q again in
      ground (
        arith,
        is,
        gone,
        same,
        get-insert (identity p).provider_id (identity p).provider_id p m,
        bytes_beq_refl (identity p).provider_id,
      )
