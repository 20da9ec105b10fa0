-- ===== src/Bootstrap/RoundTrip.antt =====
-- URLs as they are written, against `parse_base_url` of src/bootstrap.rs.
use remo_broker.Base.{
  ℕ, ◌+◌, ◌/◌, ◌%◌, ◌≤◌, ◌<◌, ◌≡◌, ◌≢◌, refl, ap, ◌∙◌, false, ltb, none, some, [], ◌∷◌, ◌++◌, Text,
  codes, is_empty, starts_with, All, zero, suc, if◌then◌else◌, arith, Bool-cases, inl, inr, head?,
  unwrap_or,
}
use remo_broker.Base.Paths.{split}
use remo_broker.Bootstrap.Url.{
  parse_digits, parse_u16, rsplit_once, parse_authority, before_slash, parse_base_url,
}

-- The decimal digits of a number before a text, where the fuel is at least the number.
abbrev pub digits : ℕ → ℕ → Text → Text
digits zero n s = b'0' ∷ s
digits (suc fuel) n s =
    let more = digits fuel (n / 10) ((b'0' + n % 10) ∷ s) in
    if ltb n 10 then (b'0' + n) ∷ s else more

abbrev pub decimal : ℕ → Text
decimal n = digits n n []

-- `http://host:port/path`
abbrev pub url_of : Text → ℕ → Text → Text
url_of host port path = codes "http://" ++ host ++ (b':' ∷ decimal port) ++ (b'/' ∷ path)

parse-digits :
    (fuel n : ℕ) (s : Text)
    → n ≤ fuel
    → n < 65_536
    → parse_digits 0 (digits fuel n s) ≡ parse_digits n s
unfolding parse_digits
parse-digits zero n s enough small = ground arith
parse-digits (suc fuel) n s enough small =
    ground (arith, parse-digits fuel (n / 10) ((b'0' + n % 10) ∷ s))

rsplit_once-digits :
    (fuel n : ℕ) (s : Text) → rsplit_once b':' s ≡ none → rsplit_once b':' (digits fuel n s) ≡ none
unfolding rsplit_once
rsplit_once-digits zero n s h = ground arith
rsplit_once-digits (suc fuel) n s h =
    ground (arith, rsplit_once-digits fuel (n / 10) ((b'0' + n % 10) ∷ s))

rsplit_once-append :
    (a b : Text) → rsplit_once b':' b ≡ none → rsplit_once b':' (a ++ b':' ∷ b) ≡ some (a, b)
unfolding rsplit_once
rsplit_once-append [] b h = ground arith
rsplit_once-append (c ∷ a) b h = ground (arith, rsplit_once-append a b h)

-- The first digit is a digit, so no sign stands before it.
parse_u16-digits :
    (fuel n : ℕ) (s : Text)
    → n ≤ fuel
    → parse_u16 (digits fuel n s) ≡ parse_digits 0 (digits fuel n s)
unfolding parse_u16
parse_u16-digits zero n s enough = ground arith
parse_u16-digits (suc fuel) n s enough =
    ground (arith, parse_u16-digits fuel (n / 10) ((b'0' + n % 10) ∷ s))

parse_u16-decimal : (port : ℕ) → port < 65_536 → parse_u16 (decimal port) ≡ some port
unfolding parse_digits
parse_u16-decimal port small =
    parse_u16-digits port port [] (omega arith) ∙ parse-digits port port [] (omega arith) small

abbrev IsNotSlash : ℕ → Type 0
IsNotSlash c = c ≢ b'/'

digits-All : (fuel n : ℕ) (s : Text) → All IsNotSlash s → All IsNotSlash (digits fuel n s)
digits-All zero n s h = ((λ e. ground arith), h)
digits-All (suc fuel) n s h = elim (Bool-cases (ltb n 10)) [
  | inl q ↦ rw q ((λ e. ground arith), h)
  | inr q ↦ rw q (digits-All fuel (n / 10) _ ((λ e. ground arith), h))
]

All-append : (a b : Text) → All IsNotSlash a → All IsNotSlash b → All IsNotSlash (a ++ b)
All-append [] b h k = k
All-append (c ∷ a) b (here, there) k = (here, All-append a b there k)

head-split : (a path : Text) → All IsNotSlash a → head? (split b'/' (a ++ b'/' ∷ path)) ≡ some a
unfolding split
head-split [] path safe = ground arith
head-split (c ∷ a) path (here, there) = ground (arith, head-split a path there)

parse_authority-append :
    (host : Text) (port : ℕ)
    → is_empty host ≡ false
    → port < 65_536
    → parse_authority (host ++ b':' ∷ decimal port) ≡ some (host, port)
unfolding parse_authority rsplit_once
parse_authority-append host port named small = ground (
  arith,
  rsplit_once-append host (decimal port) (rsplit_once-digits port port [] refl),
  parse_u16-decimal port small,
)

-- A URL that is written with a host and a port is read back as that host and port, whatever path
-- follows, where the host is not empty and has no slash.
pub parse-url_of :
    (host path : Text) (port : ℕ)
    → is_empty host ≡ false
    → All IsNotSlash host
    → port < 65_536
    → parse_base_url (url_of host port path) ≡ some (host, port)
unfolding parse_base_url starts_with
parse-url_of host path port named safe small =
    let authority = host ++ b':' ∷ decimal port in
    let before : before_slash (authority ++ b'/' ∷ path) ≡ authority =
      ap (unwrap_or (authority ++ b'/' ∷ path)) (
        head-split authority path
          (All-append host _ safe ((λ e. ground arith), digits-All port port [] tt))) in
    ap parse_authority before ∙ parse_authority-append host port named small
