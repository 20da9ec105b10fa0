-- ===== src/Bootstrap/Url.antt =====
-- `parse_base_url` of src/bootstrap.rs: `http://host[:port]`. An error is `none`; the caller puts
-- the URL into the error.
use remo_broker.Base.{
  ℕ, ◌+◌, ◌-◌, ◌*◌, Option, none, some, [], ◌∷◌, head?, Text, codes, is_empty, ltb, in_range, ◌==◌,
  if◌then◌else◌, unwrap_or, starts_with, drop,
}
use remo_broker.Base.Paths.{split}

-- `s.parse::<u16>()`: digits, one `+` in front allowed, below 2^16.
unfoldable pub parse_digits : ℕ → Text → Option ℕ
parse_digits n [] = some n
parse_digits n (d ∷ s) =
    let rest = parse_digits (n * 10 + (d - b'0')) s in
    if in_range b'0' b'9' d then (if ltb 65_535 (n * 10 + (d - b'0')) then none else rest) else none

unfoldable pub parse_u16 : Text → Option ℕ
unfolding parse_digits
parse_u16 [] = none
parse_u16 (d ∷ s) =
    if d == b'+' then (if is_empty s then none else parse_digits 0 s) else parse_digits 0 (d ∷ s)

-- `s.rsplit_once(sep)`: around the last separator.
unfoldable pub rsplit_once : ℕ → Text → Option (Text × Text)
rsplit_once sep [] = none
rsplit_once sep (c ∷ s) = elim (rsplit_once sep s) [
  | some (a, b) ↦ some (c ∷ a, b)
  | none ↦ if c == sep then some ([], s) else none
]

unfoldable pub parse_authority : Text → Option (Text × ℕ)
unfolding rsplit_once parse_u16
parse_authority authority = elim (rsplit_once b':' authority) [
  | some (host, port_str) ↦ elim (parse_u16 port_str) [
    | none ↦ none
    | some port ↦ if is_empty host then none else some (host, port)
  ]
  | none ↦ if is_empty authority then none else some (authority, 80)
]

-- What stands before the first '/'.
abbrev pub before_slash : Text → Text
before_slash s = unwrap_or s (head? (split b'/' s))

unfoldable pub parse_base_url : Text → Option (Text × ℕ)
unfolding parse_authority
parse_base_url url =
    if starts_with url (codes "http://") then parse_authority (before_slash (drop 7 url)) else none
