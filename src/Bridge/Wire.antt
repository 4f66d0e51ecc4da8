-- ===== src/Bridge/Wire.antt =====
-- Big-endian numbers, the checksum and the errors of crates/uf-core/src/bridge.rs.
-- A byte is a number, and a slice a list of them; `usize` has 64 bits.
use Prim.Native.Nat.{bit_xor}
use uflow.Prelude.{ℕ, zero, suc, ◌+◌, ◌*◌, ◌/◌, ◌%◌, List, [], ◌∷◌, ◌++◌, u64_mod}
use uflow.Prelude.Text.{Str}

-- `BridgeProtocolError`. `io` stands for an error of the underlying stream other than its end.
pub data ProtocolError : Type 0 where
  truncated bad_magic invalid_length bad_checksum invalid_utf8 io : ProtocolError
  unsupported_major unknown_message_type oversized_body : ℕ → ProtocolError
  missing_identity_field : Str → ProtocolError

-- `value.to_be_bytes()` for a number of `k` bytes.
unfoldable pub to_be_bytes : ℕ → ℕ → List ℕ
to_be_bytes zero n = []
to_be_bytes (suc k) n = to_be_bytes k (n / 256) ++ (n % 256 ∷ [])

unfoldable pub be_value : ℕ → List ℕ → ℕ
be_value acc [] = acc
be_value acc (b ∷ bs) = be_value (acc * 256 + b) bs

-- `from_be_bytes`
unfoldable pub from_be_bytes : List ℕ → ℕ
unfolding be_value
from_be_bytes bs = be_value 0 bs

unfoldable pub checksum_from : ℕ → List ℕ → ℕ
checksum_from hash [] = hash
checksum_from hash (b ∷ bs) = checksum_from (bit_xor hash b * 0x100_0000_01b3 % u64_mod) bs

-- FNV-1a over 64 bits.
unfoldable pub checksum64 : List ℕ → ℕ
unfolding checksum_from
checksum64 bytes = checksum_from 0xcbf2_9ce4_8422_2325 bytes
