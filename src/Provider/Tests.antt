-- ===== src/Provider/Tests.antt =====
-- The registry of crates/uf-daemon/src/providers/registry.rs with two providers.
use uflow.Prelude.{ℕ, ◌≡◌, ◌≢◌, refl, [], ◌∷◌, ok, if◌then◌else◌, bytes_beq, bytes_key}
use uflow.Prelude.Text.{Str, text, is_empty}
use uflow.Prelude.Maps.{Map, get, insert}
use uflow.Provider.Types.{ProviderIdentity, ProviderKind, semantic, ProviderHealth, ready}
use uflow.Provider.Registry.{register, require}
use uflow.Provider.Lookup.{require-register, register-register}

abbrev identity_of : ℕ → ProviderIdentity
identity_of n = record {
  provider_api_major = 1;
  provider_api_minor = 0;
  provider_id = 109 ∷ [];
  provider_kind = ProviderKind.mock;
  adapter_revision = [];
  external_platform_revision = [];
  external_protocol_revision = [];
  execution_realm_id = [];
  node_id = n ∷ [];
  session_id = [];
  boot_id = [];
  session_generation = 1;
  fidelity = semantic;
  limitations = [];
}

abbrev health_of : ℕ → ProviderHealth
health_of n = ready

abbrev before : Map Str ℕ
before = (text "other", 4) ∷ []

abbrev after : Map Str ℕ
after = (text "other", 4) ∷ (109 ∷ [], 7) ∷ []

registered : register identity_of health_of before 7 ≡ ok after
unfolding register get insert text bytes_beq is_empty
registered = refl

require-register_example :
    require after (109 ∷ [])
    ≡ (if bytes_beq (109 ∷ []) (109 ∷ []) then ok 7 else require before (109 ∷ []))
require-register_example =
    require-register identity_of health_of before after 7 (109 ∷ []) registered

register-register_example : register identity_of health_of after 8 ≢ ok after
register-register_example =
    register-register identity_of health_of before after after 7 8 registered refl
