-- ===== src/Base/Assoc.antt =====
-- `std::map` and `std::unordered_map` with integer keys, as association lists. A theorem about them
-- is stated through `lookup`, so it does not depend on the order of the entries.
use Prim.Native.Nat.{ℕ, suc, ◌+◌, ◌≤◌}
use mathlib.Core.Path.{◌≡◌, refl}
use mathlib.Core.Option.{Option, none, some}
use mathlib.Core.List.{List, [], ◌∷◌}
use native.Mathlib.Omega.{arith}
use atsf4g_co.Base.Tests.{◌==◌, if◌then◌else◌}

module _ {ℓ} {V : Type ℓ} where
  -- `m.find(k)`
  unfoldable pub lookup : ℕ → List (ℕ × V) → Option V
  lookup key [] = none
  lookup key ((at, val) ∷ entries) = if at == key then some val else lookup key entries

  -- `m[k] = v`
  pub insert : ℕ → V → List (ℕ × V) → List (ℕ × V)
  insert key val [] = (key, val) ∷ []
  insert key val ((at, old) ∷ entries) =
      if at == key then (key, val) ∷ entries else (at, old) ∷ insert key val entries

  -- `m.erase(k)`
  pub erase : ℕ → List (ℕ × V) → List (ℕ × V)
  erase key [] = []
  erase key ((at, val) ∷ entries) =
      let rest = erase key entries in if at == key then rest else (at, val) ∷ rest

  -- `m.size()`
  pub size : List (ℕ × V) → ℕ
  size [] = 0
  size (e ∷ entries) = suc (size entries)

  pub lookup-insert :
      (key at : ℕ) (val : V) (entries : List (ℕ × V))
      → lookup at (insert key val entries) ≡ (if key == at then some val else lookup at entries)
  unfolding lookup insert
  lookup-insert key at val [] = refl
  lookup-insert key at val ((head, old) ∷ entries) =
      ground (arith, lookup-insert key at val entries)

  pub lookup-erase :
      (key at : ℕ) (entries : List (ℕ × V))
      → lookup at (erase key entries) ≡ (if key == at then none else lookup at entries)
  unfolding lookup erase
  lookup-erase key at [] = ground arith
  lookup-erase key at ((head, old) ∷ entries) = ground (arith, lookup-erase key at entries)

  size-insert-le :
      (key : ℕ) (val : V) (entries : List (ℕ × V))
      → size (insert key val entries) ≤ size entries + 1
  unfolding size insert
  size-insert-le key val [] = omega arith
  size-insert-le key val ((at, old) ∷ entries) = ground (arith, size-insert-le key val entries)

  size-erase-le : (key : ℕ) (entries : List (ℕ × V)) → size (erase key entries) ≤ size entries
  unfolding size erase
  size-erase-le key [] = omega arith
  size-erase-le key ((at, old) ∷ entries) = ground (arith, size-erase-le key entries)
