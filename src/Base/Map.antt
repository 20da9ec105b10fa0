-- ===== src/Base/Map.antt =====
-- `HashMap<String, V>` as an association list. Where the source iterates over a map, the list's
-- order stands for the unspecified iteration order.
use remo_broker.Base.Tests.{if◌then◌else◌}
use remo_broker.Base.Lists.{length, All}
use remo_broker.Base.Texts.{Text, same, same_iff, same_refl}
use Prim.Native.Nat.{◌+◌, ◌≤◌}
use mathlib.Core.Path.{◌≡◌, refl}
use mathlib.Core.Bool.{Bool, true, false}
use mathlib.Core.List.{List, [], ◌∷◌}
use mathlib.Core.Option.{Option, none, some}
use native.Mathlib.Omega.{arith}

abbrev pub Map {ℓ} : Type ℓ → Type ℓ
Map V = List (Text × V)

module _ {ℓ} {V : Type ℓ} where
  -- `get`
  unfoldable pub lookup : Text → Map V → Option V
  lookup k [] = none
  lookup k ((j, v) ∷ m) = if same j k then some v else lookup k m

  unfoldable pub remove : Text → Map V → Map V
  remove k [] = []
  remove k ((j, v) ∷ m) = let rest = remove k m in if same j k then rest else (j, v) ∷ rest

  -- An old value of the key is replaced.
  unfoldable pub insert : Text → V → Map V → Map V
  insert k v m = (k, v) ∷ remove k m

  abbrev pub is_some : Option V → Bool
  is_some none = false
  is_some (some v) = true

  -- `contains_key`
  unfoldable pub contains_key : Text → Map V → Bool
  contains_key k m = is_some (lookup k m)

  -- Every key once: what makes a list stand for a map.
  abbrev pub IsUnique : Map V → Type ℓ
  IsUnique [] = Unit
  IsUnique ((k, v) ∷ m) = (lookup k m ≡ none) × IsUnique m

module _ {ℓ} {V : Type ℓ} where
  pub lookup-remove :
      (k j : Text) (m : Map V) → lookup j (remove k m) ≡ (if same k j then none else lookup j m)
  unfolding lookup remove
  lookup-remove k j [] = ground arith
  lookup-remove k j ((i, v) ∷ m) =
      ground (arith, lookup-remove k j m, same_iff i k, same_iff i j, same_iff k j)

  pub lookup-insert :
      (k j : Text) (v : V) (m : Map V)
      → lookup j (insert k v m) ≡ (if same k j then some v else lookup j m)
  unfolding lookup insert
  lookup-insert k j v m = ground (arith, lookup-remove k j m)

  pub length-remove-le : (k : Text) (m : Map V) → length (remove k m) ≤ length m
  unfolding remove
  length-remove-le k [] = omega arith
  length-remove-le k ((i, v) ∷ m) = ground (arith, length-remove-le k m)

  pub remove_absent : (k : Text) (m : Map V) → lookup k m ≡ none → remove k m ≡ m
  unfolding lookup remove
  remove_absent k [] h = refl
  remove_absent k ((i, v) ∷ m) h = ground (arith, remove_absent k m)

  -- Removing a key that is there takes out one entry.
  pub length-remove :
      (k : Text) (m : Map V) (v : V)
      → IsUnique m
      → lookup k m ≡ some v
      → length (remove k m) + 1 ≡ length m
  unfolding lookup remove
  length-remove k [] v u h = cc
  length-remove k ((i, w) ∷ m) v u h =
      ground (arith, length-remove k m v u.1, remove_absent k m, same_iff i k)

  pub remove-IsUnique : (k : Text) (m : Map V) → IsUnique m → IsUnique (remove k m)
  unfolding remove
  remove-IsUnique k [] u = u
  remove-IsUnique k ((i, v) ∷ m) u = ground (arith, remove-IsUnique k m u.1, lookup-remove k i m)

  pub insert-IsUnique : (k : Text) (v : V) (m : Map V) → IsUnique m → IsUnique (insert k v m)
  unfolding insert
  insert-IsUnique k v m u = (rw (lookup-remove k k m, same_refl k) refl, remove-IsUnique k m u)

-- What holds of every entry that `lookup` finds holds of all entries.
pub lookup-All {ℓ κ} :
    {V : Type ℓ} (P : Text × V → Type κ) (m : Map V)
    → IsUnique m
    → ((k : Text) (v : V) → lookup k m ≡ some v → P (k, v))
    → All P m
unfolding lookup
lookup-All P [] u h = tt
lookup-All P ((k, v) ∷ m) (fresh, u) h = (
  h k v (rw (same_refl k) refl),
  lookup-All P m u (λ j w at. h j w (ground (arith, same_iff k j))),
)
