-- ===== src/Base/Texts.antt =====
-- `String` and `&str`: the UTF-8 bytes. Paths are texts too (the daemon takes them from JSON and
-- TOML strings and from its command line).
use Prim.Native.Nat.{ℕ}
use Prim.Native.Char.{code}
use Prim.Native.String.{String}
use mathlib.Core.Path.{◌≡◌, refl}
use mathlib.Core.Logic.{◌↔◌, ◌⊎◌}
use mathlib.Core.List.{List, [], ◌∷◌}
use mathlib.Core.Bool.{Bool, true, false, ◌&&◌, ◌||◌}
use native.Mathlib.Omega.{arith}
use remo_broker.Base.Tests.{◌==◌}

abbrev pub Text : Type 0
Text = List ℕ

-- The bytes of an ASCII literal.
abbrev pub codes : String → Text
codes String.[] = []
codes (String.◌∷◌ c s) = code c ∷ codes s

-- `==` on strings
unfoldable pub same : Text → Text → Bool
same [] [] = true
same (x ∷ xs) (y ∷ ys) = x == y && same xs ys
same _ _ = false

pub same_refl : (s : Text) → same s s ≡ true
unfolding same
same_refl [] = refl
same_refl (x ∷ xs) = ground (arith, same_refl xs)

same→eq : (s t : Text) → same s t ≡ true → s ≡ t
unfolding same
same→eq [] [] h = refl
same→eq (x ∷ xs) (y ∷ ys) h = ground (arith, same→eq xs ys)
same→eq [] (y ∷ ys) h = cc
same→eq (x ∷ xs) [] h = cc

eq→same : (s t : Text) → s ≡ t → same s t ≡ true
eq→same s t h = rw h (same_refl t)

pub same_iff : (s t : Text) → (same s t ≡ true) ↔ (s ≡ t)
same_iff s t = (same→eq s t, eq→same s t)

-- `xs.iter().any(|n| n == name)`
unfoldable pub contains : List Text → Text → Bool
contains [] a = false
contains (x ∷ xs) a = same x a || contains xs a

-- `a` is one of the entries.
abbrev pub Among : Text → List Text → Type 0
Among a [] = ⊥
Among a (x ∷ xs) = (x ≡ a) ⊎ Among a xs

pub contains_iff : (xs : List Text) (a : Text) → (contains xs a ≡ true) ↔ Among a xs
unfolding contains
contains_iff [] a = (λ h. cc, λ h. absurd h)
contains_iff (x ∷ xs) a = ground (arith, same_iff x a, contains_iff xs a)

unfoldable pub is_empty : Text → Bool
is_empty [] = true
is_empty (x ∷ xs) = false

unfoldable pub starts_with : Text → Text → Bool
starts_with s [] = true
starts_with [] (y ∷ ys) = false
starts_with (x ∷ xs) (y ∷ ys) = x == y && starts_with xs ys

-- `s.ends_with(b)` for one byte
unfoldable pub ends_with : Text → ℕ → Bool
ends_with [] b = false
ends_with (x ∷ []) b = x == b
ends_with (x ∷ y ∷ s) b = ends_with (y ∷ s) b
