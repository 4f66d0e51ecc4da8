-- ===== src/Bridge/Replay.antt =====
-- `ReplayCache` of crates/uf-core/src/bridge.rs.
use uflow.Prelude.{ℕ, ◌≡◌, List, [], ok, err, ◌==◌, if◌then◌else◌, none, some, arith, nat_key}
use uflow.Prelude.Maps.{Map, get, insert, get-insert}
use uflow.Bridge.Wire.{checksum64}
use uflow.Bridge.Frame.{BridgeFrame}
use uflow.Bridge.Codec.{encode}

pub data ReplayDecision : Type 0 where
  new conflict : ReplayDecision
  cached : List ℕ → ReplayDecision

-- The field `entries`: the fingerprint and the response under each request id.
abbrev pub ReplayCache : Type 0
ReplayCache = Map ℕ (ℕ × List ℕ)

-- `frame.encode().unwrap_or_default()`
unfoldable pub encoded_or_empty : BridgeFrame → List ℕ
encoded_or_empty f = elim (encode f) [ ok bytes ↦ bytes | err _ ↦ [] ]

unfoldable pub fingerprint : BridgeFrame → ℕ
fingerprint f = checksum64 (encoded_or_empty f)

unfoldable pub observe : ReplayCache → BridgeFrame → ReplayDecision
observe cache f = elim (get f.request_id cache) [
  | none ↦ new
  | some (existing, response) ↦ if existing == fingerprint f then cached response else conflict
]

unfoldable pub remember : ReplayCache → BridgeFrame → List ℕ → ReplayCache
remember cache f encoded_response = insert f.request_id (fingerprint f, encoded_response) cache

-- Once the answer to `f` is remembered, a frame with its request id gets that answer if its
-- fingerprint is that of `f`, and is a conflict if not; other frames are judged as before.
pub observe-remember :
    (cache : ReplayCache) (f g : BridgeFrame) (response : List ℕ)
    → observe (remember cache f response) g ≡ (
        if f.request_id == g.request_id
        then (if fingerprint f == fingerprint g then cached response else conflict)
        else observe cache g)
unfolding observe remember
observe-remember cache f g response =
    ground (arith, get-insert f.request_id g.request_id (fingerprint f, response) cache)
