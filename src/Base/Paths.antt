-- ===== src/Base/Paths.antt =====
-- `Path` over texts: `join`, `file_name`, and splitting at a byte.
use remo_broker.Base.Tests.{◌==◌, if◌then◌else◌}
use remo_broker.Base.Texts.{Text, codes, same, starts_with, ends_with, is_empty}
use mathlib.Core.Bool.{◌||◌}
use mathlib.Core.List.{List, [], ◌∷◌, ◌++◌}
use mathlib.Core.Option.{Option, none, some}
use Prim.Native.Nat.{ℕ}

-- `Path::join`: an absolute path replaces, and one separator is put between.
unfoldable pub join : Text → Text → Text
join dir rel =
    if starts_with rel (codes "/")
    then rel
    else if is_empty dir || ends_with dir b'/'
    then dir ++ rel
    else dir ++ (b'/' ∷ rel)

abbrev push_byte : ℕ → List Text → List Text
push_byte c [] = (c ∷ []) ∷ []
push_byte c (w ∷ ws) = (c ∷ w) ∷ ws

-- `s.split(sep)`: never empty.
unfoldable pub split : ℕ → Text → List Text
split sep [] = [] ∷ []
split sep (c ∷ s) = let rest = split sep s in if c == sep then [] ∷ rest else push_byte c rest

-- The last path component that is neither empty nor ".".
unfoldable pub last_component : List Text → Option Text
last_component [] = none
last_component (w ∷ ws) = elim (last_component ws) [
  | some v ↦ some v
  | none ↦ if is_empty w || same w (codes ".") then none else some w
]

-- `Path::file_name`: none for the root, and for a path that ends in "..".
unfoldable pub file_name : Text → Option Text
unfolding split last_component
file_name path = elim (last_component (split b'/' path)) [
  | none ↦ none
  | some w ↦ if same w (codes "..") then none else some w
]
