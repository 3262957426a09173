-- ===== src/Common/Maps.antt =====
-- `QMap` and `QHash` as association lists. A `QMap` lists its keys in order, and so does the model;
-- the order in which a `QHash` is walked is not specified, and the model takes that of the keys.
use mathlib.Core.Path.{◌≡◌}
use mathlib.Core.Bool.{Bool, true, false}
use mathlib.Core.List.{List, [], ◌∷◌}
use mathlib.Core.Option.{Option, none, some}
use native.Mathlib.Omega.{arith}
use chatripper.Common.Tests.{if◌then◌else◌, Key, ◌==◌}

abbrev pub Map {ℓ κ} : Type ℓ → Type κ → Type (ℓ ⊔ κ)
Map K V = List (K × V)

module _ {ℓ κ} {K : Type ℓ} {V : Type κ} ⦃e : Key K⦄ where
  unfoldable pub find : K → Map K V → Option V
  find k [] = none
  find k ((j, v) ∷ m) = if j == k then some v else find k m

  unfoldable pub insert : K → V → Map K V → Map K V
  insert k v [] = (k, v) ∷ []
  insert k v ((j, w) ∷ m) =
      if j == k
      then (k, v) ∷ m
      else if e.before k j
      then (k, v) ∷ (j, w) ∷ m
      else (j, w) ∷ insert k v m

  unfoldable pub remove : K → Map K V → Map K V
  remove k [] = []
  remove k ((j, v) ∷ m) = let rest = remove k m in if j == k then rest else (j, v) ∷ rest

  abbrev pub has_key : K → Map K V → Bool
  has_key k m = elim (find k m) [ none ↦ false | some v ↦ true ]

  pub find-insert :
      (k j : K) (v : V) (m : Map K V)
      → find j (insert k v m) ≡ (if k == j then some v else find j m)
  unfolding find insert
  find-insert k j v [] = ground arith
  find-insert k j v ((i, w) ∷ m) =
      ground (arith, e.beq_iff k j, e.beq_iff i k, e.beq_iff i j, find-insert k j v m)

  pub find-remove :
      (k j : K) (m : Map K V) → find j (remove k m) ≡ (if k == j then none else find j m)
  unfolding find remove
  find-remove k j [] = ground arith
  find-remove k j ((i, w) ∷ m) =
      ground (arith, e.beq_iff k j, e.beq_iff i k, e.beq_iff i j, find-remove k j m)
