-- ===== src/Bridge/Canonical.antt =====
-- The frames that `BridgeFrame::decode` of crates/uf-core/src/bridge.rs accepts.
use uflow.Prelude.{
  ℕ, ◌+◌, ◌≡◌, refl, sym, ap, ◌∙◌, List, ◌++◌, ok, arith, length, length-append, All, append-nil,
  Result-cases, inl, inr,
}
use uflow.Bridge.Wire.{checksum64}
use uflow.Bridge.Reader.{return}
use uflow.Bridge.Frame.{BridgeFrame, validate}
use uflow.Bridge.Codec.{Header, extend_all, frame_bytes, encode, read_frame, decode}
use uflow.Bridge.Sound.{IsByte}
use uflow.Bridge.Steps.{
  header_bytes, frame_of, checksum_inv, header_then, lengths_then, string_then, body_then,
  lift_then,
}

canonical_bytes :
    (h : Header) (realm node boot session body s1 s2 s3 s : List ℕ)
    → length realm ≡ h.realm_len
    → length node ≡ h.node_len
    → length boot ≡ h.boot_len
    → length session ≡ h.session_len
    → length body ≡ h.body_len
    → checksum64 body ≡ h.expected_checksum
    → s ≡ realm ++ s1
    → s1 ≡ node ++ s2
    → s2 ≡ boot ++ s3
    → s3 ≡ session ++ body
    → frame_bytes (frame_of h realm node boot session body) ≡ extend_all (header_bytes h) s
unfolding frame_bytes
canonical_bytes h realm node boot session body s1 s2 s3 s lr ln lb ls lo sum e1 e2 e3 e4 =
    rw (e1, e2, e3, e4, lr, ln, lb, ls, lo, sum, append-nil) refl

encode_valid : (g : BridgeFrame) → validate g ≡ ok tt → encode g ≡ ok (frame_bytes g)
unfolding encode
encode_valid g v = rw (v, encode)

encode_frame :
    (g f : BridgeFrame) (bytes : List ℕ) {c d : ℕ}
    → validate g ≡ ok tt
    → frame_bytes g ≡ bytes
    → return g bytes c ≡ ok (f, d)
    → encode f ≡ ok bytes
encode_frame g f bytes v e r =
    let same : f ≡ g = ground (arith, r) in ap encode same ∙ encode_valid g v ∙ ap ok e

frame_canonical :
    (bytes : List ℕ) (f : BridgeFrame) (d : ℕ)
    → All IsByte bytes
    → read_frame bytes 0 ≡ ok (f, d)
    → encode f ≡ ok bytes
unfolding read_frame
frame_canonical bytes f d is r = header_then bytes _ is r λ h c s start l r.
    lengths_then bytes h _ c s l r λ total r.
      string_then bytes h.realm_len _ c s l (omega (arith, total)) r λ realm s1 c1 e1 n1 l1 r.
        let h1 : length s ≡ length realm + length s1 =
          omega (arith, ap length e1, length-append realm s1) in
        string_then bytes h.node_len _ c1 s1 l1 (omega (arith, total, n1)) r
          λ node s2 c2 e2 n2 l2 r.
            let h2 : length s1 ≡ length node + length s2 =
              omega (arith, ap length e2, length-append node s2) in
            string_then bytes h.boot_len _ c2 s2 l2 (omega (arith, total, n1, n2)) r
              λ boot s3 c3 e3 n3 l3 r.
                let h3 : length s2 ≡ length boot + length s3 =
                  omega (arith, ap length e3, length-append boot s3) in
                string_then bytes h.session_len _ c3 s3 l3 (omega (arith, total, n1, n2, n3)) r
                  λ session body c4 e4 n4 l4 r.
                    let h4 : length s3 ≡ length session + length body =
                      omega (arith, ap length e4, length-append session body) in
                    body_then bytes _ c4 body l4 r λ c5 r. lift_then bytes _ _ c5 r λ sum r.
                      lift_then bytes _ _ c5 r λ valid r.
                        encode_frame (frame_of h realm node boot session body) f bytes valid
                          (canonical_bytes h realm node boot session body s1 s2 s3 s n1 n2 n3 n4
                              (omega (arith, total)) (checksum_inv _ _ sum) e1 e2 e3 e4
                            ∙ sym start)
                          r

-- Every byte string that `decode` accepts is the one that `encode` writes for the frame it returns.
pub encode-decode :
    (bytes : List ℕ) (f : BridgeFrame)
    → All IsByte bytes
    → decode bytes ≡ ok f
    → encode f ≡ ok bytes
unfolding decode
encode-decode bytes f is e = elim (Result-cases (read_frame bytes 0)) [
  | inl ((g, d), r) ↦ frame_canonical bytes f d is (ground (arith, r))
  | inr (x, r) ↦ absurd (ground (arith, r))
]
