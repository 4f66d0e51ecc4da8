-- ===== src/Recovery/Journal/Store.antt =====
-- `AnchoredJournal` of crates/uf-daemon/src/ddr_recovery_journal.rs over the contents of its two files. The tests
-- of the files themselves (their names, owners, modes, links and inodes) are an answer of the system, `pins`.
use uflow.Prelude.{
  ℕ, zero, suc, ◌+◌, ◌-◌, List, [], ◌∷◌, Bool, true, false, not, ◌&&◌, ◌||◌, Option, none, some,
  Result, ok, err, ◌==◌, ltb, length, take, if◌then◌else◌,
}
use uflow.Prelude.Text.{Str, text, valid_utf8}
use uflow.Recovery.Journal.Frame.{
  IoError, invalid_data, permission_denied, Kind, clean_checkpoint, same_kind, Frame, max_journal,
}
use uflow.Recovery.Journal.Head.{clean, Head, same_mode, same_head, parse_head}
use uflow.Recovery.Journal.Scan.{scan}

abbrev pub max_state : ℕ
max_state = 4096

-- `frames.get(i)` and `frames.last()`
unfoldable pub frame_at : ℕ → List Frame → Option Frame
frame_at i [] = none
frame_at zero (f ∷ fs) = some f
frame_at (suc i) (f ∷ fs) = frame_at i fs

unfoldable pub last_frame : List Frame → Option Frame
last_frame [] = none
last_frame (f ∷ []) = some f
last_frame (f ∷ g ∷ fs) = last_frame (g ∷ fs)

-- `frame.is_none_or(|frame| frame.kind != kind)`
abbrev pub is_other_kind : Kind → Option Frame → Bool
is_other_kind kind none = true
is_other_kind kind (some f) = not (same_kind f.kind kind)

-- The clean checkpoint that the head refers to is not there.
unfoldable pub is_unanchored : Head → List Frame → Bool
is_unanchored head frames =
    not (head.clean_sequence == 0)
    && is_other_kind clean_checkpoint (frame_at (head.clean_sequence - 1) frames)

-- A clean head does not end in a clean checkpoint.
unfoldable pub is_unclean : Head → List Frame → Bool
is_unclean head frames =
    same_mode head.mode clean
    && (not (head.sequence == 0) && is_other_kind clean_checkpoint (last_frame frames))

-- The end of `parse_frames`, after its loop.
unfoldable pub check_frames : Head → List Frame × ℕ × ℕ → Result IoError (List Frame)
check_frames head (frames, sequence, previous) =
    if not (sequence == head.sequence) || not (previous == head.checksum)
    then err (invalid_data (text "journal frames do not match durable head"))
    else if is_unanchored head frames
    then err (invalid_data (text "referenced clean checkpoint is absent"))
    else if is_unclean head frames
    then err (invalid_data (text "clean head is not a clean checkpoint"))
    else ok frames

-- `parse_frames`
unfoldable pub parse_frames : List ℕ → Head → Result IoError (List Frame)
parse_frames bytes head =
    if not (length bytes == head.offset) || ltb max_journal head.offset
    then err (invalid_data (text "journal length does not match durable head"))
    else elim (scan (length bytes) 0 0 bytes) [ err e ↦ err e | ok read ↦ check_frames head read ]

-- `read_head`
unfoldable pub read_head : Str → Result IoError Head
read_head state =
    if ltb max_state (length state)
    then err (invalid_data (text "recovery head exceeds size limit"))
    else if valid_utf8 state
    then parse_head state
    else err (invalid_data (text "stream did not contain valid UTF-8"))

pub data WriteStage : Type 0 where
  before_journal_write after_partial_journal_write before_journal_sync after_journal_sync :
      WriteStage
  after_head_truncate before_head_sync after_head_sync : WriteStage

-- The contents of the files, the head in memory, and whether an operation has failed.
pub record AnchoredJournal : Type 0 where
  pub journal : List ℕ
  pub state : Str
  pub head : Head
  pub poisoned : Bool

-- An operation returns a result and changes the journal, also where it fails.
abbrev pub Op {ℓ} : Type ℓ → Type ℓ
Op A = AnchoredJournal → Result IoError A × AnchoredJournal

infixl 5 ◌>>=◌ ◌>>◌
unfoldable pub ◌>>=◌ {ℓ κ} : {A : Type ℓ} {B : Type κ} → Op A → (A → Op B) → Op B
◌>>=◌ m f j = let (r, k) = m j in elim r [ err e ↦ (err e, k) | ok a ↦ f a k ]

unfoldable pub ◌>>◌ {ℓ} : {B : Type ℓ} → Op (Unit {0}) → Op B → Op B
◌>>◌ m f j = let (r, k) = m j in elim r [ err e ↦ (err e, k) | ok a ↦ f k ]

abbrev pub lift {ℓ} : {A : Type ℓ} → Result IoError A → Op A
lift r j = (r, j)

abbrev pub this : Op AnchoredJournal
this j = (ok j, j)

-- An error poisons the journal.
unfoldable pub poisoning {ℓ} : {A : Type ℓ} → Op A → Op A
poisoning m j =
    let (r, k) = m j in elim r [ err e ↦ (err e, record k { poisoned = true }) | ok a ↦ (ok a, k) ]

-- The check of the head in `verify_inner`, and the frames.
unfoldable pub check_head_of : AnchoredJournal → Head → Result IoError (List Frame)
check_head_of j found =
    if not (same_head found j.head) || not (length j.journal == j.head.offset)
    then err (invalid_data (text "recovery head or journal changed"))
    else parse_frames (take (j.head.offset + 1) j.journal) j.head

-- `verify_inner`, with the answer of the system on the two files.
unfoldable pub verify_inner : Result IoError (Unit {0}) → Op (List Frame)
verify_inner pins = do
  lift pins
  j ← this
  found ← lift (read_head j.state)
  lift (check_head_of j found)

-- `verify`
unfoldable pub verify : Result IoError (Unit {0}) → Op (List Frame)
verify pins j =
    if j.poisoned
    then (err (permission_denied (text "recovery journal poisoned")), j)
    else poisoning (verify_inner pins) j

-- `open`
unfoldable pub opening : Result IoError (Unit {0}) → List ℕ → Str → Result IoError AnchoredJournal
opening (err e) journal state = err e
opening (ok done) journal state = elim (read_head state) [
  | err e ↦ err e
  | ok head ↦
      if not (length journal == head.offset) || ltb max_journal head.offset
      then err (invalid_data (text "journal length does not match durable head"))
      else elim (parse_frames (take (head.offset + 1) journal) head) [
        | err e ↦ err e
        | ok frames ↦
            ok (record { journal = journal; state = state; head = head; poisoned = false })
      ]
]
