-- ===== src/Recovery/Journal/Ops.antt =====
-- Chains of operations on the journal of crates/uf-daemon/src/ddr_recovery_journal.rs.
use uflow.Prelude.{◌≡◌, ap, true, Result, ok, err}
use uflow.Recovery.Journal.Frame.{IoError}
use uflow.Recovery.Journal.Store.{AnchoredJournal, Op, ◌>>=◌, ◌>>◌, poisoning}

module _ {ℓ} {A : Type ℓ} (m : Op A) (j : AnchoredJournal) {k : AnchoredJournal} where
  pub poisoning_ok : {a : A} → m j ≡ (ok a, k) → poisoning m j ≡ (ok a, k)
  unfolding poisoning
  poisoning_ok e =
      ap
        (λ (p : Result IoError A × AnchoredJournal).
          let (r, l) = p in
          elim r [ err x ↦ (err x, record l { poisoned = true }) | ok y ↦ (ok y, l) ])
        e

  pub poisoning_err :
      {e : IoError} → m j ≡ (err e, k) → poisoning m j ≡ (err e, record k { poisoned = true })
  unfolding poisoning
  poisoning_err e =
      ap
        (λ (p : Result IoError A × AnchoredJournal).
          let (r, l) = p in
          elim r [ err x ↦ (err x, record l { poisoned = true }) | ok y ↦ (ok y, l) ])
        e

  pub bind_ok {κ} : {B : Type κ} (f : A → Op B) {a : A} → m j ≡ (ok a, k) → (m >>= f) j ≡ f a k
  unfolding ◌>>=◌
  bind_ok f e =
      ap
        (λ (p : Result IoError A × AnchoredJournal).
          let (r, l) = p in elim r [ err x ↦ (err x, l) | ok y ↦ f y l ])
        e

  pub bind_err {κ} :
      {B : Type κ} (f : A → Op B) {e : IoError} → m j ≡ (err e, k) → (m >>= f) j ≡ (err e, k)
  unfolding ◌>>=◌
  bind_err f e =
      ap
        (λ (p : Result IoError A × AnchoredJournal).
          let (r, l) = p in elim r [ err x ↦ (err x, l) | ok y ↦ f y l ])
        e

module _ (m : Op (Unit {0})) (j : AnchoredJournal) {k : AnchoredJournal} where
  pub then_ok {κ} : {B : Type κ} (f : Op B) → m j ≡ (ok tt, k) → (m >> f) j ≡ f k
  unfolding ◌>>◌
  then_ok f e =
      ap
        (λ (p : Result IoError (Unit {0}) × AnchoredJournal).
          let (r, l) = p in elim r [ err x ↦ (err x, l) | ok y ↦ f l ])
        e

  pub then_err {κ} :
      {B : Type κ} (f : Op B) {e : IoError} → m j ≡ (err e, k) → (m >> f) j ≡ (err e, k)
  unfolding ◌>>◌
  then_err f e =
      ap
        (λ (p : Result IoError (Unit {0}) × AnchoredJournal).
          let (r, l) = p in elim r [ err x ↦ (err x, l) | ok y ↦ f l ])
        e
