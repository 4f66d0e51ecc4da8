-- ===== src/Bridge/Steps.antt =====
-- The steps of `BridgeFrame::decode` of crates/uf-core/src/bridge.rs, taken apart.
use uflow.Prelude.{
  ℕ, ◌+◌, ◌≤◌, ◌≡◌, refl, sym, ap, ◌∙◌, List, [], ◌∷◌, ◌++◌, not, ◌==◌, Result, ok, arith, length,
  take, drop, All, fail_if, bytes_beq, bytes_beq_iff, length-take,
}
use uflow.Prelude.Text.{Str}
use uflow.Bridge.Wire.{ProtocolError, to_be_bytes, bad_magic, bad_checksum}
use uflow.Bridge.Reader.{Reader, ◌>>=◌, lift}
use uflow.Bridge.Frame.{BridgeFrame, MessageType, bridge_magic, to_u16, try_from}
use uflow.Bridge.Codec.{
  Header, extend_all, read_header, check_lengths, end_of_frame, read_string, read_body,
}
use uflow.Bridge.Sound.{
  IsByte, Left, Sound, Left-advance, bind_inv, lift_inv, Sound-bytes, Sound-be, Sound-lift,
  Sound-return, take-append-drop,
}

pub to_u16-try_from : (n : ℕ) (m : MessageType) → try_from n ≡ ok m → n ≡ to_u16 m
unfolding try_from to_u16
to_u16-try_from n m e = ground arith

pub magic_is :
    (magic : List ℕ)
    → fail_if (not (bytes_beq magic bridge_magic)) bad_magic ≡ ok tt
    → magic ≡ bridge_magic
magic_is magic e = ground (arith, bytes_beq_iff magic bridge_magic)

-- The bytes of a header.
abbrev pub header_bytes : Header → List (List ℕ)
header_bytes h =
    bridge_magic
    ∷ to_be_bytes 2 h.major
    ∷ to_be_bytes 2 h.minor
    ∷ to_be_bytes 2 (to_u16 h.message)
    ∷ to_be_bytes 2 h.flags
    ∷ to_be_bytes 8 h.request_id
    ∷ to_be_bytes 8 h.correlation_id
    ∷ to_be_bytes 8 h.generation
    ∷ to_be_bytes 4 h.body_len
    ∷ to_be_bytes 4 h.status
    ∷ to_be_bytes 4 h.error_code
    ∷ to_be_bytes 8 h.expected_checksum
    ∷ to_be_bytes 2 h.realm_len
    ∷ to_be_bytes 2 h.node_len
    ∷ to_be_bytes 2 h.boot_len
    ∷ to_be_bytes 2 h.session_len
    ∷ []

module _ {bytes : List ℕ} where
  pub Sound-header : Sound bytes read_header [] header_bytes
  unfolding read_header
  Sound-header = Sound-bytes 8 _ λ magic _ _. Sound-lift _ _ λ _ checked. Sound-be 2 _ λ major.
      Sound-be 2 _ λ minor. Sound-be 2 _ λ kind. Sound-lift _ _ λ message typed.
        Sound-be 2 _ λ flags. Sound-be 8 _ λ request_id. Sound-be 8 _ λ correlation_id.
          Sound-be 8 _ λ generation. Sound-be 4 _ λ body_len. Sound-be 4 _ λ status.
            Sound-be 4 _ λ error_code. Sound-be 8 _ λ expected_checksum. Sound-be 2 _ λ realm_len.
              Sound-be 2 _ λ node_len. Sound-be 2 _ λ boot_len. Sound-be 2 _ λ session_len.
                Sound-return _ (rw (magic_is magic checked, to_u16-try_from kind message typed))

-- The frame that `read_frame` puts together.
abbrev pub frame_of : Header → Str → Str → Str → Str → List ℕ → BridgeFrame
frame_of h realm node boot session body = record {
  protocol_major = h.major;
  protocol_minor = h.minor;
  message_type = h.message;
  flags = h.flags;
  request_id = h.request_id;
  correlation_id = h.correlation_id;
  execution_realm_id = realm;
  node_id = node;
  boot_id = boot;
  provider_session_id = session;
  session_generation = h.generation;
  status = h.status;
  error_code = h.error_code;
  body = body;
}

module _ (bytes : List ℕ) where
  pub lengths_inv :
      (h : Header) (c d : ℕ) {u : Unit {0}}
      → check_lengths h bytes c ≡ ok (u, d)
      → (d ≡ c)
        × (c + (h.realm_len + h.node_len + h.boot_len + h.session_len) + h.body_len ≡ length bytes)
  unfolding check_lengths end_of_frame
  lengths_inv h c d e = ground arith

  pub slice_inv :
      (n c d : ℕ) (v : List ℕ)
      → read_string n bytes c ≡ ok (v, d)
      → (v ≡ take n (drop c bytes)) × (d ≡ c + n)
  unfolding read_string
  slice_inv n c d v e = ground arith

  pub string_inv :
      (n c d : ℕ) (s v : List ℕ)
      → Left bytes c s
      → n ≤ length s
      → read_string n bytes c ≡ ok (v, d)
      → (t : List ℕ) × (s ≡ v ++ t) × (length v ≡ n) × Left bytes d t
  string_inv n c d s v l fits e =
      let (is, moved) = slice_inv n c d v e in
      let same : v ≡ take n s = is ∙ ap (take n) l.0 in
      let within : c + n ≤ length bytes = omega (arith, l.1, fits) in
      (
        drop n s,
        rw same (take-append-drop n s),
        rw same (omega (arith, length-take n s, fits)),
        rw moved (Left-advance n bytes c s l within),
      )

  pub body_inv : (c d : ℕ) (s v : List ℕ) → Left bytes c s → read_body bytes c ≡ ok (v, d) → s ≡ v
  unfolding read_body
  body_inv c d s v l e = sym l.0 ∙ ground (arith, e)

pub checksum_inv :
    (n expected : ℕ) → fail_if (not (n == expected)) bad_checksum ≡ ok tt → n ≡ expected
checksum_inv n expected e = ground arith

-- The steps of `read_frame` taken apart, each for a goal `P` that what follows it proves.
module _ {P : Type 0} (bytes : List ℕ) {r : BridgeFrame × ℕ} where
  pub header_then :
      (k : Header → Reader BridgeFrame)
      → All IsByte bytes
      → (read_header >>= k) bytes 0 ≡ ok r
      → ((h : Header) (c : ℕ) (s : List ℕ)
          → bytes ≡ extend_all (header_bytes h) s
          → Left bytes c s
          → k h bytes c ≡ ok r
          → P)
      → P
  header_then k is e next =
      let (h, c, e1, e2) = bind_inv read_header k bytes 0 e in
      let (s, start, l) = Sound-header.run 0 c bytes h (refl, omega arith, is) refl e1 in
      next h c s start l e2

  pub lengths_then :
      (h : Header) (k : Unit {0} → Reader BridgeFrame) (c : ℕ) (s : List ℕ)
      → Left bytes c s
      → (check_lengths h >>= k) bytes c ≡ ok r
      → (h.realm_len + h.node_len + h.boot_len + h.session_len + h.body_len ≡ length s
          → k tt bytes c ≡ ok r
          → P)
      → P
  lengths_then h k c s l e next =
      let (u, d, e1, e2) = bind_inv (check_lengths h) k bytes c e in
      let (kept, total) = lengths_inv bytes h c d e1 in
      next (omega (arith, total, l.1)) (cc (e2, kept))

  pub string_then :
      (n : ℕ) (k : Str → Reader BridgeFrame) (c : ℕ) (s : List ℕ)
      → Left bytes c s
      → n ≤ length s
      → (read_string n >>= k) bytes c ≡ ok r
      → ((v t : List ℕ) (d : ℕ)
          → s ≡ v ++ t
          → length v ≡ n
          → Left bytes d t
          → k v bytes d ≡ ok r
          → P)
      → P
  string_then n k c s l fits e next =
      let (v, d, e1, e2) = bind_inv (read_string n) k bytes c e in
      let (t, cut, len, l') = string_inv bytes n c d s v l fits e1 in next v t d cut len l' e2

  pub body_then :
      (k : List ℕ → Reader BridgeFrame) (c : ℕ) (s : List ℕ)
      → Left bytes c s
      → (read_body >>= k) bytes c ≡ ok r
      → ((d : ℕ) → k s bytes d ≡ ok r → P)
      → P
  body_then k c s l e next =
      let (v, d, e1, e2) = bind_inv read_body k bytes c e in
      next d (cc (e2, body_inv bytes c d s v l e1))

  pub lift_then :
      (t : Result ProtocolError (Unit {0})) (k : Unit {0} → Reader BridgeFrame) (c : ℕ)
      → (lift t >>= k) bytes c ≡ ok r
      → (t ≡ ok tt → k tt bytes c ≡ ok r → P)
      → P
  lift_then t k c e next =
      let (u, d, e1, e2) = bind_inv (lift t) k bytes c e in
      let (is, kept) = lift_inv t bytes c d u e1 in next is (cc (e2, kept))
