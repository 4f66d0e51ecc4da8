-- ===== src/Provider/Registry.antt =====
-- `ProviderRegistry` of crates/uf-daemon/src/providers/registry.rs. The provider objects are a
-- parameter, with the answers of their `identity` and `health`.
use uflow.Prelude.{
  is_some, List, [], ◌∷◌, ◌++◌, Option, none, some, Result, ok, err, if◌then◌else◌, bytes_key,
}
use uflow.Prelude.Text.{Str, text, is_empty}
use uflow.Prelude.Maps.{Map, get, insert}
use uflow.Provider.Types.{
  ProviderError, provider_error, provider_protocol_error, provider_unavailable, ProviderIdentity,
  ProviderHealth,
}

module _ {P : Type 0} (identity : P → ProviderIdentity) (health : P → ProviderHealth) where
  -- `register`
  unfoldable pub register : Map Str P → P → Result ProviderError (Map Str P)
  register providers provider =
      let id = (identity provider).provider_id in
      if is_empty id
      then err (provider_error provider_protocol_error (text "provider_id is required"))
      else if is_some (get id providers)
      then err (
          provider_error provider_protocol_error
            (text "provider " ++ (id ++ text " is already registered")))
      else ok (insert id provider providers)

  -- `identities`
  unfoldable pub identities : Map Str P → List ProviderIdentity
  identities [] = []
  identities ((id, provider) ∷ others) = identity provider ∷ identities others

  -- `health_summary`
  unfoldable pub health_summary : Map Str P → Map Str ProviderHealth
  health_summary [] = []
  health_summary ((id, provider) ∷ others) = (id, health provider) ∷ health_summary others

-- `find`
abbrev pub find : {P : Type 0} → Map Str P → Str → Option P
find providers id = get id providers

abbrev pub found_or_missing : {P : Type 0} → Str → Option P → Result ProviderError P
found_or_missing id none =
    err
      (provider_error provider_unavailable (text "provider " ++ (id ++ text " is not registered")))
found_or_missing id (some provider) = ok provider

-- `require`
unfoldable pub require : {P : Type 0} → Map Str P → Str → Result ProviderError P
require providers id = found_or_missing id (get id providers)
