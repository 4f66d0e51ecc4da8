-- ===== src/Bridge/Sound.antt =====
-- Rules for what a reader of crates/uf-core/src/bridge.rs has read when it succeeds.
use uflow.Prelude.{
  drop-add, ℕ, zero, suc, ◌+◌, ◌*◌, ◌/◌, ◌%◌, ◌<◌, ◌≤◌, ◌≡◌, refl, sym, ap, ◌∙◌, List, [], ◌∷◌,
  ◌++◌, Result, ok, err, arith, length, length-append, take, drop, All, append_assoc, append-nil,
  Result-cases, inl, inr, length-take, length-drop,
}
use uflow.Bridge.Wire.{ProtocolError, to_be_bytes, from_be_bytes}
use uflow.Bridge.Reader.{Reader, ◌>>=◌, return, lift, take_bytes, take_be}
use uflow.Bridge.Codec.{extend_all}
use uflow.Bridge.Reads.{bind_ok, be_value-append}

abbrev pub IsByte : ℕ → Type 0
IsByte b = b < 256

snoc_induction {κ} :
    (P : List ℕ → Type κ)
    → P []
    → ((xs : List ℕ) (x : ℕ) → P xs → P (xs ++ (x ∷ [])))
    → (ys xs : List ℕ) → P xs
    → P (xs ++ ys)
snoc_induction P nil snoc [] xs p = rw (append-nil xs) p
snoc_induction P nil snoc (y ∷ ys) xs p =
    rw (append_assoc xs (y ∷ []) ys) at
      (snoc_induction P nil snoc ys (xs ++ (y ∷ [])) (snoc xs y p))

pub All-front : (xs ys : List ℕ) → All IsByte (xs ++ ys) → All IsByte xs
All-front [] ys h = tt
All-front (x ∷ xs) ys h = (h.0, All-front xs ys h.1)

All-back : (xs ys : List ℕ) → All IsByte (xs ++ ys) → All IsByte ys
All-back [] ys h = h
All-back (x ∷ xs) ys h = All-back xs ys h.1

to_be_bytes_step :
    (k n x : ℕ) → x < 256 → to_be_bytes (suc k) (n * 256 + x) ≡ to_be_bytes k n ++ (x ∷ [])
unfolding to_be_bytes
to_be_bytes_step k n x h =
    let high : (n * 256 + x) / 256 ≡ n = omega arith in
    let low : (n * 256 + x) % 256 ≡ x = omega arith in rw (high, low)

abbrev RereadsAs : List ℕ → Type 0
RereadsAs bs = All IsByte bs → to_be_bytes (length bs) (from_be_bytes bs) ≡ bs

from_be_bytes-append :
    (x : ℕ) (bs : List ℕ) → from_be_bytes (bs ++ (x ∷ [])) ≡ from_be_bytes bs * 256 + x
unfolding from_be_bytes
from_be_bytes-append x bs = be_value-append 0 x bs

length-snoc : (xs : List ℕ) (x : ℕ) → length (xs ++ (x ∷ [])) ≡ suc (length xs)
length-snoc xs x = omega (arith, length-append xs (x ∷ []))

RereadsAs-snoc : (xs : List ℕ) (x : ℕ) → RereadsAs xs → RereadsAs (xs ++ (x ∷ []))
RereadsAs-snoc xs x ih h =
    rw (length-snoc xs x, from_be_bytes-append x xs)
      (to_be_bytes_step (length xs) (from_be_bytes xs) x (All-back xs (x ∷ []) h).0
        ∙ ap (λ (front : List ℕ). front ++ (x ∷ [])) (ih (All-front xs (x ∷ []) h)))

-- The big-endian bytes of a number that was read are the bytes that it was read from.
pub to_be_bytes-from_be_bytes : (bs : List ℕ) → RereadsAs bs
unfolding to_be_bytes
to_be_bytes-from_be_bytes bs = snoc_induction RereadsAs (λ _. refl) RereadsAs-snoc bs [] (λ _. refl)

-- `s` is left at the cursor, and consists of bytes.
abbrev pub Left : List ℕ → ℕ → List ℕ → Type 0
Left bytes c s = (drop c bytes ≡ s) × (c + length s ≡ length bytes) × All IsByte s

-- If `pre` has been read and the reader answers `b`, then `g b` has been read.
pub record Sound {ℓ} {B : Type ℓ} (bytes : List ℕ) (m : Reader B) (pre : List (List ℕ))
    (g : B → List (List ℕ)) : Type ℓ where
  pub run :
      (c d : ℕ) (s : List ℕ) (b : B)
      → Left bytes c s
      → bytes ≡ extend_all pre s
      → m bytes c ≡ ok (b, d)
      → (t : List ℕ) × (bytes ≡ extend_all (g b) t) × Left bytes d t

pub take-append-drop : (n : ℕ) (xs : List ℕ) → xs ≡ take n xs ++ drop n xs
take-append-drop zero xs = refl
take-append-drop (suc n) [] = refl
take-append-drop (suc n) (x ∷ xs) = ap (◌∷◌ x) (take-append-drop n xs)

extend_all-append :
    (cs : List (List ℕ)) (c s : List ℕ) → extend_all (cs ++ (c ∷ [])) s ≡ extend_all cs (c ++ s)
extend_all-append [] c s = refl
extend_all-append (x ∷ cs) c s = ap (◌++◌ x) (extend_all-append cs c s)

-- What a successful `take_bytes` answers.
take_bytes_inv :
    (n : ℕ) (bytes : List ℕ) (c d : ℕ) (chunk : List ℕ)
    → take_bytes n bytes c ≡ ok (chunk, d)
    → (chunk ≡ take n (drop c bytes)) × (d ≡ c + n) × (c + n ≤ length bytes)
unfolding take_bytes
take_bytes_inv n bytes c d chunk e = ground arith

pub Left-advance :
    (n : ℕ) (bytes : List ℕ) (c : ℕ) (s : List ℕ)
    → Left bytes c s
    → c + n ≤ length bytes
    → Left bytes (c + n) (drop n s)
Left-advance n bytes c s (l, e, b) h = (
  drop-add c n bytes ∙ ap (drop n) l,
  omega (arith, length-drop n s),
  All-back (take n s) (drop n s) (rw (← take-append-drop n s) b),
)

pub bind_inv {ℓ κ} :
    {A : Type ℓ} {B : Type κ} (m : Reader A) (f : A → Reader B) (bytes : List ℕ) (c : ℕ) {r : B × ℕ}
    → (m >>= f) bytes c ≡ ok r
    → (a : A) × (d : ℕ) × (m bytes c ≡ ok (a, d)) × (f a bytes d ≡ ok r)
bind_inv m f bytes c h = elim (Result-cases (m bytes c)) [
  | inl ((a, d), e) ↦ (a, d, e, sym (bind_ok m f bytes c e) ∙ h)
  | inr (x, e) ↦ absurd (unfold ◌>>=◌ in cc (rw (e, ◌>>=◌) at h))
]

pub lift_inv {ℓ} :
    {A : Type ℓ} (r : Result ProtocolError A) (bytes : List ℕ) (c d : ℕ) (a : A)
    → lift r bytes c ≡ ok (a, d)
    → (r ≡ ok a) × (d ≡ c)
lift_inv (ok x) bytes c d a e = ground arith
lift_inv (err x) bytes c d a e = ground arith

take_be_bind {ℓ} :
    {B : Type ℓ} (k : ℕ) (f : ℕ → Reader B) (bytes : List ℕ) (c : ℕ)
    → (take_be k >>= f) bytes c ≡ (take_bytes k >>= λ bs. f (from_be_bytes bs)) bytes c
unfolding ◌>>=◌ take_be from_be_bytes
take_be_bind k f bytes c = elim (Result-cases (take_bytes k bytes c)) [
  | inl ((bs, d), e) ↦ rw (◌>>=◌, take_be, ◌>>=◌, e, ◌>>=◌)
  | inr (x, e) ↦ rw (◌>>=◌, take_be, ◌>>=◌, e, ◌>>=◌)
]

reread :
    (k : ℕ) (chunk : List ℕ)
    → length chunk ≡ k
    → All IsByte chunk
    → to_be_bytes k (from_be_bytes chunk) ≡ chunk
reread k chunk len is = rw (← len) (to_be_bytes-from_be_bytes chunk is)

module _ {B : Type 0} {bytes : List ℕ} {pre : List (List ℕ)} {g : B → List (List ℕ)} where
  pub Sound-bytes :
      (n : ℕ) (f : List ℕ → Reader B)
      → ((chunk : List ℕ)
          → length chunk ≡ n
          → All IsByte chunk
          → Sound bytes (f chunk) (pre ++ (chunk ∷ [])) g)
      → Sound bytes (take_bytes n >>= f) pre g
  Sound-bytes n f next = record {
    run = λ c d s b l p e.
        let (chunk, c', e1, e2) = bind_inv (take_bytes n) f bytes c e in
        let (is, moved, within) = take_bytes_inv n bytes c c' chunk e1 in
        let len : length (take n s) ≡ n = omega (arith, length-take n s, l.1, within) in
        let front : All IsByte (take n s) =
          All-front (take n s) (drop n s) (rw (← take-append-drop n s) l.2) in
        let read : bytes ≡ extend_all (pre ++ (take n s ∷ [])) (drop n s) =
          p
          ∙ ap (extend_all pre) (take-append-drop n s)
          ∙ sym (extend_all-append pre (take n s) (drop n s)) in
        (next (take n s) len front).run (c + n) d (drop n s) b (Left-advance n bytes c s l within)
          read (cc (e2, is, moved, ap (take n) l.0));
  }

  pub Sound-lift {ℓ} :
      {A : Type ℓ} (r : Result ProtocolError A) (f : A → Reader B)
      → ((a : A) → r ≡ ok a → Sound bytes (f a) pre g)
      → Sound bytes (lift r >>= f) pre g
  Sound-lift r f next = record {
    run = λ c d s b l p e.
        let (a, c', e1, e2) = bind_inv (lift r) f bytes c e in
        let (same, kept) = lift_inv r bytes c c' a e1 in
        (next a same).run c d s b l p (cc (e2, kept));
  }

  pub Sound-return : (b : B) → pre ≡ g b → Sound bytes (return b) pre g
  Sound-return b e = record {
    run = λ c d s b' l p h. (
      s,
      p ∙ ap (λ (cs : List (List ℕ)). extend_all cs s) (e ∙ ap g (cc h)),
      (ground (arith, h, l.0), ground (arith, h, l.1), l.2),
    );
  }

  -- A big-endian number was read from its big-endian bytes.
  pub Sound-be :
      (k : ℕ) (f : ℕ → Reader B)
      → ((n : ℕ) → Sound bytes (f n) (pre ++ (to_be_bytes k n ∷ [])) g)
      → Sound bytes (take_be k >>= f) pre g
  Sound-be k f next = record {
    run = λ c d s b l p e.
        (Sound-bytes k (λ bs. f (from_be_bytes bs)) from_chunk).run c d s b l p
          (sym (take_be_bind k f bytes c) ∙ e);
  }
    where
      from_chunk :
          (chunk : List ℕ)
          → length chunk ≡ k
          → All IsByte chunk
          → Sound bytes (f (from_be_bytes chunk)) (pre ++ (chunk ∷ [])) g
      from_chunk chunk len is = rw (reread k chunk len is) at (next (from_be_bytes chunk))
