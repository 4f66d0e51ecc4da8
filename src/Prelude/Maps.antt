-- ===== src/Prelude/Maps.antt =====
-- `BTreeMap` and `HashMap` as association lists; the first entry with a key is the one that counts.
-- `insert` overwrites in place and `remove` takes every entry with the key out.
use uflow.Prelude.Tests.{Key, if◌then◌else◌}
use mathlib.Core.Path.{◌≡◌, refl}
use mathlib.Core.Bool.{Bool, false, ◌||◌}
use mathlib.Core.Option.{Option, none, some}
use mathlib.Core.List.{List, [], ◌∷◌}
use native.Mathlib.Omega.{arith}

abbrev pub Map {ℓ} : Type 0 → Type ℓ → Type ℓ
Map K V = List (K × V)

module _ {ℓ} {K : Type 0} {V : Type ℓ} ⦃key : Key K⦄ where
  unfoldable pub get : K → Map K V → Option V
  get k [] = none
  get k ((j, v) ∷ m) = if key.same j k then some v else get k m

  unfoldable pub insert : K → V → Map K V → Map K V
  insert k v [] = (k, v) ∷ []
  insert k v ((j, w) ∷ m) = if key.same j k then (k, v) ∷ m else (j, w) ∷ insert k v m

  unfoldable pub remove : K → Map K V → Map K V
  remove k [] = []
  remove k ((j, v) ∷ m) = if key.same j k then remove k m else (j, v) ∷ remove k m

  -- `m.values().any(test)`
  unfoldable pub any_value : (V → Bool) → Map K V → Bool
  any_value test [] = false
  any_value test ((j, v) ∷ m) = test v || any_value test m

  pub get-insert :
      (k q : K) (v : V) (m : Map K V)
      → get q (insert k v m) ≡ (if key.same k q then some v else get q m)
  unfolding get insert
  get-insert k q v [] = refl
  get-insert k q v ((j, w) ∷ m) =
      ground (arith, get-insert k q v m, key.same_iff j k, key.same_iff j q, key.same_iff k q)

  pub get-remove :
      (k q : K) (m : Map K V) → get q (remove k m) ≡ (if key.same k q then none else get q m)
  unfolding get remove
  get-remove k q [] = ground arith
  get-remove k q ((j, w) ∷ m) =
      ground (arith, get-remove k q m, key.same_iff j k, key.same_iff j q, key.same_iff k q)

  -- What no value passes, the value found does not pass.
  pub get_of_any_value :
      (test : V → Bool) (k : K) (m : Map K V) {v : V}
      → any_value test m ≡ false
      → get k m ≡ some v
      → test v ≡ false
  unfolding get any_value
  get_of_any_value test k [] h g = cc
  get_of_any_value test k ((j, w) ∷ m) {v} h g = ground (arith, get_of_any_value test k m {v = v})
