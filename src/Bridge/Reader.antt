-- ===== src/Bridge/Reader.antt =====
-- The cursor of `BridgeFrame::decode` in crates/uf-core/src/bridge.rs, as a state monad with errors.
use uflow.Prelude.{
  ℕ, List, Result, ok, err, checked_add, length, take, drop, leb, if◌then◌else◌, none, some,
}
use uflow.Bridge.Wire.{ProtocolError, truncated, invalid_length, from_be_bytes}

-- A reader has the input and the cursor, and moves the cursor on.
abbrev pub Reader {ℓ} : Type ℓ → Type ℓ
Reader A = List ℕ → ℕ → Result ProtocolError (A × ℕ)

infixl 5 ◌>>=◌ ◌>>◌
unfoldable pub ◌>>=◌ {ℓ κ} : {A : Type ℓ} {B : Type κ} → Reader A → (A → Reader B) → Reader B
◌>>=◌ m f bytes cursor = elim (m bytes cursor) [ ok (a, next) ↦ f a bytes next | err e ↦ err e ]

abbrev pub ◌>>◌ {ℓ} : {B : Type ℓ} → Reader (Unit {0}) → Reader B → Reader B
m >> k = m >>= λ _. k

abbrev pub return {ℓ} : {A : Type ℓ} → A → Reader A
return a bytes cursor = ok (a, cursor)

-- A step that does not read.
abbrev pub lift {ℓ} : {A : Type ℓ} → Result ProtocolError A → Reader A
lift r bytes cursor = elim r [ ok a ↦ ok (a, cursor) | err e ↦ err e ]

-- `take::<N>(bytes, &mut cursor)?`
unfoldable pub take_bytes : ℕ → Reader (List ℕ)
take_bytes n bytes cursor = elim (checked_add cursor n) [
  | none ↦ err invalid_length
  | some end ↦
      if leb end (length bytes) then ok (take n (drop cursor bytes), end) else err truncated
]

-- `uN::from_be_bytes(take(bytes, &mut cursor)?)`
unfoldable pub take_be : ℕ → Reader ℕ
take_be n = take_bytes n >>= λ bs. return (from_be_bytes bs)
