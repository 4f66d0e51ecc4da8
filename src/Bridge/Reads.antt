-- ===== src/Bridge/Reads.antt =====
-- What a reader takes from the front of the input that is left at its cursor.
use uflow.Prelude.{
  ℕ, zero, suc, ◌+◌, ◌*◌, ◌/◌, ◌%◌, ◌^◌, ◌<◌, ◌≡◌, refl, ap, ◌∙◌, List, [], ◌∷◌, ◌++◌, Result, ok,
  arith, u64_mod, length, length-append, take, drop, take-append, drop-append, drop-add,
}
use native.Mathlib.Nat.{pow-suc}
use uflow.Bridge.Wire.{ProtocolError, to_be_bytes, from_be_bytes, be_value}
use uflow.Bridge.Reader.{Reader, ◌>>=◌, lift, take_bytes, take_be}

-- `s` is the input from the cursor on.
abbrev pub At : List ℕ → ℕ → List ℕ → Type 0
At bytes cursor s = (drop cursor bytes ≡ s) × (cursor + length s ≡ length bytes)

pub length-to_be_bytes : (k n : ℕ) → length (to_be_bytes k n) ≡ k
unfolding to_be_bytes
length-to_be_bytes zero n = refl
length-to_be_bytes (suc k) n =
    omega (
      arith,
      length-append (to_be_bytes k (n / 256)) (n % 256 ∷ []),
      length-to_be_bytes k (n / 256),
    )

pub be_value-append :
    (acc b : ℕ) (bs : List ℕ) → be_value acc (bs ++ (b ∷ [])) ≡ be_value acc bs * 256 + b
unfolding be_value
be_value-append acc b [] = refl
be_value-append acc b (x ∷ bs) = be_value-append (acc * 256 + x) b bs

-- A number of `k` bytes is read back from its big-endian bytes.
pub from_be_bytes-to_be_bytes : (k n : ℕ) → n < 256 ^ k → from_be_bytes (to_be_bytes k n) ≡ n
unfolding from_be_bytes to_be_bytes be_value
from_be_bytes-to_be_bytes zero n h = omega arith
from_be_bytes-to_be_bytes (suc k) n h =
    rw (be_value-append 0 (n % 256) (to_be_bytes k (n / 256)))
      (omega (arith, from_be_bytes-to_be_bytes k (n / 256) (omega (arith, h, pow-suc 256 k))))

-- The chunk at the cursor is taken, and the cursor stands behind it.
pub At-advance :
    (bytes : List ℕ) (c : ℕ) (chunk s : List ℕ)
    → At bytes c (chunk ++ s)
    → At bytes (c + length chunk) s
At-advance bytes c chunk s h = (
  drop-add c (length chunk) bytes ∙ ap (drop (length chunk)) h.0 ∙ drop-append chunk s,
  omega (arith, h.1, length-append chunk s),
)

pub At-take :
    (bytes : List ℕ) (c : ℕ) (chunk s : List ℕ)
    → At bytes c (chunk ++ s)
    → take (length chunk) (drop c bytes) ≡ chunk
At-take bytes c chunk s h = ap (take (length chunk)) h.0 ∙ take-append chunk s

-- In `bytes`, with `s` left, the reader answers `a` and leaves `t`.
pub record Reads {ℓ} {A : Type ℓ} (bytes : List ℕ) (m : Reader A) (s : List ℕ) (a : A) (t : List ℕ)
    : Type ℓ where
  pub run : (c : ℕ) → At bytes c s → (d : ℕ) × (m bytes c ≡ ok (a, d)) × At bytes d t

-- A reader that succeeds hands its answer and its cursor on.
pub bind_ok {ℓ κ} :
    {A : Type ℓ} {B : Type κ} (m : Reader A) (f : A → Reader B) (bytes : List ℕ) (c : ℕ) {a : A}
    {d : ℕ}
    → m bytes c ≡ ok (a, d)
    → (m >>= f) bytes c ≡ f a bytes d
unfolding ◌>>=◌
bind_ok m f bytes c e = rw (e, ◌>>=◌)

pub Reads-bind {ℓ κ} :
    {A : Type ℓ} {B : Type κ} {bytes : List ℕ} {m : Reader A} (f : A → Reader B) {s t u : List ℕ}
    {a : A} {b : B}
    → Reads bytes m s a t
    → Reads bytes (f a) t b u
    → Reads bytes (m >>= f) s b u
Reads-bind {bytes} {m} f hm hf = record {
  run = λ c at.
      let (d, e, at') = hm.run c at in
      let (d', e', at'') = hf.run d at' in (d', bind_ok m f bytes c e ∙ e', at'');
}

pub Reads-lift {ℓ} :
    {A : Type ℓ} (bytes s : List ℕ) (r : Result ProtocolError A) (a : A)
    → r ≡ ok a
    → Reads bytes (lift r) s a s
Reads-lift bytes s r a e = record { run = λ c at. (c, rw e, at) }

module _ (bytes : List ℕ) (fits : length bytes < u64_mod) where
  pub Reads-bytes :
      (chunk s : List ℕ) → Reads bytes (take_bytes (length chunk)) (chunk ++ s) chunk s
  unfolding take_bytes
  Reads-bytes chunk s = record {
    run = λ c at. (c + length chunk, taken c at, At-advance bytes c chunk s at);
  }
    where
      taken :
          (c : ℕ)
          → At bytes c (chunk ++ s)
          → take_bytes (length chunk) bytes c ≡ ok (chunk, c + length chunk)
      taken c at = ground (arith, At-take bytes c chunk s at, at.1, length-append chunk s)

  pub Reads-be :
      (k n : ℕ) (s : List ℕ) → n < 256 ^ k → Reads bytes (take_be k) (to_be_bytes k n ++ s) n s
  unfolding take_be
  Reads-be k n s h =
      Reads-bind _ (rw (length-to_be_bytes k n) at (Reads-bytes (to_be_bytes k n) s))
        (record { run = λ c at. (c, rw (from_be_bytes-to_be_bytes k n h), at) })
