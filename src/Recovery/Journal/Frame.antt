-- ===== src/Recovery/Journal/Frame.antt =====
-- The frames of crates/uf-daemon/src/ddr_recovery_journal.rs.
use uflow.Prelude.{
  ℕ, ◌+◌, List, [], ◌∷◌, ◌++◌, Bool, ◌||◌, Result, ok, err, ◌>>◌, fail_if, ◌==◌, ltb, length,
  if◌then◌else◌,
}
use uflow.Prelude.Text.{Str, text, is_empty}
use uflow.Bridge.Wire.{to_be_bytes}
use uflow.Recovery.Journal.Checksum.{crc64}

-- `io::Error`: `invalid_data` is the kind of `invalid`, and `os_error` has an errno. `out_of_fuel` is no error of
-- the code: it marks a loop of the model that has turns left to take.
pub data IoError : Type 0 where
  invalid_data permission_denied : Str → IoError
  os_error : ℕ → IoError
  out_of_fuel : IoError

-- `invalid`
abbrev pub invalid {ℓ} : {A : Type ℓ} → Str → Result IoError A
invalid message = err (invalid_data message)

abbrev pub max_payload : ℕ
max_payload = 8192

abbrev pub max_journal : ℕ
max_journal = 0x400_0000

abbrev pub header_len : ℕ
header_len = 28

abbrev pub trailer_len : ℕ
trailer_len = 12

abbrev pub format_version : ℕ
format_version = 1

-- The bytes of `UDRJ` and of `JEND`.
abbrev pub frame_magic : List ℕ
frame_magic = 85 ∷ 68 ∷ 82 ∷ 74 ∷ []

abbrev pub end_magic : List ℕ
end_magic = 74 ∷ 69 ∷ 78 ∷ 68 ∷ []

pub data Kind : Type 0 where
  session_register_intent register_commit view_intent view_commit abort close_intent close_done :
      Kind
  peer_terminated reserve_intent copy_intent cancel_request work_drained publish_intent : Kind
  publish_done broker_drained clean_checkpoint recovery_audit recovery_commit not_sent retire : Kind
  work_verified broker_birth work_io_completed : Kind

-- `kind as u16`
abbrev pub kind_code : Kind → ℕ
kind_code session_register_intent = 1
kind_code register_commit = 2
kind_code view_intent = 3
kind_code view_commit = 4
kind_code abort = 5
kind_code close_intent = 6
kind_code close_done = 7
kind_code peer_terminated = 8
kind_code reserve_intent = 9
kind_code copy_intent = 10
kind_code cancel_request = 11
kind_code work_drained = 12
kind_code publish_intent = 13
kind_code publish_done = 14
kind_code broker_drained = 15
kind_code clean_checkpoint = 16
kind_code recovery_audit = 17
kind_code recovery_commit = 18
kind_code not_sent = 19
kind_code retire = 20
kind_code work_verified = 21
kind_code broker_birth = 22
kind_code work_io_completed = 23

-- `Kind::decode`
unfoldable pub decode_kind : ℕ → Result IoError Kind
decode_kind n =
    if n == 1
    then ok session_register_intent
    else if n == 2
    then ok register_commit
    else if n == 3
    then ok view_intent
    else if n == 4
    then ok view_commit
    else if n == 5
    then ok abort
    else if n == 6
    then ok close_intent
    else if n == 7
    then ok close_done
    else if n == 8
    then ok peer_terminated
    else if n == 9
    then ok reserve_intent
    else if n == 10
    then ok copy_intent
    else if n == 11
    then ok cancel_request
    else if n == 12
    then ok work_drained
    else if n == 13
    then ok publish_intent
    else if n == 14
    then ok publish_done
    else if n == 15
    then ok broker_drained
    else if n == 16
    then ok clean_checkpoint
    else if n == 17
    then ok recovery_audit
    else if n == 18
    then ok recovery_commit
    else if n == 19
    then ok not_sent
    else if n == 20
    then ok retire
    else if n == 21
    then ok work_verified
    else if n == 22
    then ok broker_birth
    else if n == 23
    then ok work_io_completed
    else invalid (text "unknown recovery event type")

-- The derived `==` of the kinds, by their numbers.
abbrev pub same_kind : Kind → Kind → Bool
same_kind a b = kind_code a == kind_code b

pub record Frame : Type 0 where
  pub kind : Kind
  pub sequence : ℕ
  pub previous : ℕ
  pub payload : List ℕ
  pub checksum : ℕ

-- `encoded_len`
unfoldable pub encoded_len : Frame → ℕ
encoded_len f = header_len + length f.payload + trailer_len

-- What the checksum of a frame is taken of.
unfoldable pub checked_bytes : Kind → ℕ → ℕ → List ℕ → List ℕ
checked_bytes kind sequence previous payload =
    frame_magic
    ++ (to_be_bytes 2 format_version
        ++ (to_be_bytes 2 (kind_code kind)
            ++ (to_be_bytes 8 sequence
                ++ (to_be_bytes 8 previous ++ (to_be_bytes 4 (length payload) ++ payload)))))

unfoldable pub encoded_bytes : Kind → ℕ → ℕ → List ℕ → List ℕ
encoded_bytes kind sequence previous payload =
    checked_bytes kind sequence previous payload
    ++ (to_be_bytes 8 (crc64 (checked_bytes kind sequence previous payload)) ++ end_magic)

-- `Frame::encode`
unfoldable pub encode_frame : Kind → ℕ → ℕ → List ℕ → Result IoError (List ℕ)
encode_frame kind sequence previous payload =
    fail_if (sequence == 0 || is_empty payload || ltb max_payload (length payload))
      (invalid_data (text "invalid recovery frame sequence or payload length"))
    >> ok (encoded_bytes kind sequence previous payload)
