-- ===== src/Tools/Reading.antt =====
-- What examples/soak.rs and examples/killtest.rs share: settings from the environment.
use remo_broker.Base.{
  ℕ, ◌+◌, ◌*◌, ◌-◌, Option, none, some, [], ◌∷◌, ◌==◌, ltb, in_range, Text, is_empty, if◌then◌else◌,
  unwrap_or,
}

-- The digits of a `u64`.
unfoldable pub digits_from : ℕ → Text → Option ℕ
digits_from n [] = some n
digits_from n (d ∷ s) =
    let rest = digits_from (n * 10 + (d - b'0')) s in
    if in_range b'0' b'9' d
    then (if ltb 18_446_744_073_709_551_615 (n * 10 + (d - b'0')) then none else rest)
    else none

-- `s.parse::<u64>().ok()`
unfoldable pub parse_u64 : Text → Option ℕ
unfolding digits_from
parse_u64 [] = none
parse_u64 (d ∷ s) =
    if d == b'+' then (if is_empty s then none else digits_from 0 s) else digits_from 0 (d ∷ s)

-- A variable that is not set, or is not a number, leaves the default.
unfoldable pub env_u64 : (Text → Option Text) → Text → ℕ → ℕ
unfolding parse_u64
env_u64 var name default = elim (var name) [
  | none ↦ default
  | some s ↦ unwrap_or default (parse_u64 s)
]
