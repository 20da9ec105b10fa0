-- ===== src/Base/Trim.antt =====
-- `str::trim`: Unicode white space at the ends of a UTF-8 text.
use Prim.Native.Nat.{ℕ, zero, suc}
use mathlib.Core.Bool.{Bool, ◌&&◌, ◌||◌}
use mathlib.Core.List.{[], ◌∷◌, reverse}
use mathlib.Core.Option.{Option, none, some}
use remo_broker.Base.Tests.{◌==◌, in_range, if◌then◌else◌}
use remo_broker.Base.Lists.{length}
use remo_broker.Base.Texts.{Text}

-- U+0009..U+000D and U+0020
abbrev pub ascii_space : ℕ → Bool
ascii_space b = in_range 9 13 b || b == 32

-- U+0085 and U+00A0
abbrev pub space2 : ℕ → ℕ → Bool
space2 a b = a == 0xc2 && (b == 0x85 || b == 0xa0)

-- U+1680, U+2000..U+200A, U+2028, U+2029, U+202F, U+205F and U+3000
abbrev pub space3 : ℕ → ℕ → ℕ → Bool
space3 a b c =
    a == 0xe1 && b == 0x9a && c == 0x80
    || a == 0xe2 && b == 0x80 && (in_range 0x80 0x8a c || c == 0xa8 || c == 0xa9 || c == 0xaf)
    || a == 0xe2 && b == 0x81 && c == 0x9f
    || a == 0xe3 && b == 0x80 && c == 0x80

-- One white space character off the front.
unfoldable pub strip_space : Text → Option Text
strip_space [] = none
strip_space (a ∷ []) = if ascii_space a then some [] else none
strip_space (a ∷ b ∷ []) =
    if ascii_space a then some (b ∷ []) else if space2 a b then some [] else none
strip_space (a ∷ b ∷ c ∷ s) =
    if ascii_space a
    then some (b ∷ c ∷ s)
    else if space2 a b
    then some (c ∷ s)
    else if space3 a b c
    then some s
    else none

-- The same on a reversed text, whose characters have their bytes reversed.
unfoldable pub strip_space_back : Text → Option Text
strip_space_back [] = none
strip_space_back (a ∷ []) = if ascii_space a then some [] else none
strip_space_back (b ∷ a ∷ []) =
    if ascii_space b then some (a ∷ []) else if space2 a b then some [] else none
strip_space_back (c ∷ b ∷ a ∷ s) =
    if ascii_space c
    then some (b ∷ a ∷ s)
    else if space2 b c
    then some (a ∷ s)
    else if space3 a b c
    then some s
    else none

-- Each round takes a byte at least, so the length is fuel enough.
unfoldable pub strip_all : ℕ → (Text → Option Text) → Text → Text
strip_all zero strip s = s
strip_all (suc n) strip s = elim (strip s) [ none ↦ s | some rest ↦ strip_all n strip rest ]

unfoldable pub trim_start : Text → Text
unfolding strip_all strip_space
trim_start s = strip_all (length s) strip_space s

unfoldable pub trim_end : Text → Text
unfolding strip_all strip_space_back
trim_end s = reverse (strip_all (length s) strip_space_back (reverse s))

unfoldable pub trim : Text → Text
unfolding trim_start trim_end
trim s = trim_end (trim_start s)
