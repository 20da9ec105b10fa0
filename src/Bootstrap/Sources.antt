-- ===== src/Bootstrap/Sources.antt =====
-- What a bootstrap token and the parts of the metadata exchange in src/bootstrap.rs are made of.
use remo_broker.Base.{
  sym, ap, ◌∙◌, ◌↔◌, ℕ, ◌+◌, ◌-◌, ◌*◌, ◌<◌, ◌≤◌, ◌≡◌, refl, true, false, some, List, [], ◌∷◌, Text,
  codes, is_empty, starts_with, arith, ok, Option-cases, Result-cases, inl, inr, take, drop,
}
use remo_broker.Base.Trim.{trim}
use remo_broker.Config.{BootstrapSource, bootstrap_env_var}
use remo_broker.Bootstrap.{
  World, FileReading, content, missing, unreadable, set, fetch_file, file_token, fetch_env_with_var,
  fetch_token,
}
use remo_broker.Bootstrap.Imds.{IsGranted, fetch_imds_iff}
use remo_broker.Bootstrap.Http.{Utf8, parse_http_response, find_separator, status_of}
use remo_broker.Bootstrap.Url.{
  parse_digits, parse_u16, parse_authority, parse_base_url, before_slash, rsplit_once,
}

-- Where the token of a source is from.
abbrev pub Origin : World → BootstrapSource → Text → Type 0
Origin w (BootstrapSource.file path) t =
    (s : Text) × (w.read_file path ≡ content s) × (t ≡ trim s) × (is_empty t ≡ false)
Origin w BootstrapSource.env t = (w.env_var bootstrap_env_var ≡ set t) × (is_empty t ≡ false)
Origin w BootstrapSource.imds t = IsGranted w t

file_token_sound :
    (path t : Text) (r : FileReading)
    → file_token path r ≡ ok t
    → (s : Text) × (r ≡ content s) × (t ≡ trim s) × (is_empty t ≡ false)
unfolding file_token
file_token_sound path t (content s) h = (s, refl, ground arith, ground arith)
file_token_sound path t missing h = absurd (ground arith)
file_token_sound path t (unreadable e) h = absurd (ground arith)

fetch_env_sound :
    (w : World) (t : Text)
    → fetch_env_with_var w bootstrap_env_var ≡ ok t
    → Origin w BootstrapSource.env t
unfolding fetch_env_with_var
fetch_env_sound w t h = ground arith

fetch_token_sound :
    (w : World) (source : BootstrapSource) (t : Text)
    → fetch_token w source ≡ ok t
    → Origin w source t
unfolding fetch_token fetch_file
fetch_token_sound w (BootstrapSource.file path) t h = file_token_sound path t (w.read_file path) h
fetch_token_sound w BootstrapSource.env t h = fetch_env_sound w t h
fetch_token_sound w BootstrapSource.imds t h = (fetch_imds_iff w t).0 h

fetch_token_complete :
    (w : World) (source : BootstrapSource) (t : Text)
    → Origin w source t
    → fetch_token w source ≡ ok t
unfolding fetch_token fetch_file file_token fetch_env_with_var
fetch_token_complete w (BootstrapSource.file path) t (s, read, e, full) = ground arith
fetch_token_complete w BootstrapSource.env t (e, full) = ground arith
fetch_token_complete w BootstrapSource.imds t h = (fetch_imds_iff w t).1 h

-- A token is fetched exactly where its source holds it: it is the trimmed text of the token file or
-- the value of the environment variable, not empty, or what the metadata service answers to a
-- request for the credentials of a role, under a metadata token that it gave just before. The role
-- is then the first line that is not blank of its answer to the request for the roles, and neither
-- the role nor the metadata token, both trimmed, is empty.
pub fetch_token_iff :
    (w : World) (source : BootstrapSource) (t : Text)
    → (fetch_token w source ≡ ok t) ↔ Origin w source t
fetch_token_iff w source t = (fetch_token_sound w source t, fetch_token_complete w source t)

parse_digits-lt : (n : ℕ) (s : Text) (m : ℕ) → n < 65_536 → parse_digits n s ≡ some m → m < 65_536
unfolding parse_digits
parse_digits-lt n [] m small h = ground arith
parse_digits-lt n (d ∷ s) m small h = ground (arith, parse_digits-lt (n * 10 + (d - b'0')) s m)

parse_u16-lt : (s : Text) (m : ℕ) → parse_u16 s ≡ some m → m < 65_536
unfolding parse_u16
parse_u16-lt [] m h = ground arith
parse_u16-lt (d ∷ s) m h = ground (arith, parse_digits-lt 0 s m, parse_digits-lt 0 (d ∷ s) m)

parse_authority_sound :
    (s host : Text) (port : ℕ)
    → parse_authority s ≡ some (host, port)
    → (is_empty host ≡ false) × (port < 65_536)
unfolding parse_authority
parse_authority_sound s host port h = elim (Option-cases (rsplit_once b':' s)) [
  | inl q ↦ ground arith
  | inr ((a, b), q) ↦ elim (Option-cases (parse_u16 b)) [
    | inl r ↦ absurd (ground arith)
    | inr (n, r) ↦ ground (arith, parse_u16-lt b n)
  ]
]

-- A base URL that parses is an `http://` one, and gives a host that is not empty and a port of 16
-- bits.
pub parse_base_url_sound :
    (url host : Text) (port : ℕ)
    → parse_base_url url ≡ some (host, port)
    → (starts_with url (codes "http://") ≡ true) × (is_empty host ≡ false) × (port < 65_536)
unfolding parse_base_url
parse_base_url_sound url host port h =
    ground (arith, parse_authority_sound (before_slash (drop 7 url)) host port)

-- A body that is accepted comes after the first blank line, and the header says a status from 200
-- to 299.
pub parse_http_response_sound :
    (u : Utf8) (raw : List ℕ) (body : Text)
    → parse_http_response u raw ≡ ok body
    → (sep : ℕ) × (status : ℕ) × (find_separator raw ≡ some sep)
      × (status_of (take sep raw) ≡ ok status)
      × (200 ≤ status)
      × (status < 300)
      × (body ≡ u.lossy (drop (sep + 4) raw))
unfolding parse_http_response
parse_http_response_sound u raw body h = elim (Option-cases (find_separator raw)) [
  | inl q ↦ absurd (ground arith)
  | inr (sep, q) ↦ elim (Result-cases (status_of (take sep raw))) [
    | inr (e, r) ↦ absurd (ground arith)
    | inl (status, r) ↦ (sep, status, q, r, ground arith, ground arith, ground arith)
  ]
]

parse_http_response-utf8 :
    (u : Utf8) (raw : List ℕ) (body : Text) (sep : ℕ)
    → find_separator raw ≡ some sep
    → parse_http_response u raw ≡ ok body
    → u.is_utf8 (take sep raw) ≡ true
unfolding parse_http_response
parse_http_response-utf8 u raw body sep q h = ground arith

parse_http_response_complete :
    (u : Utf8) (raw : List ℕ) (sep status : ℕ)
    → find_separator raw ≡ some sep
    → u.is_utf8 (take sep raw) ≡ true
    → status_of (take sep raw) ≡ ok status
    → 200 ≤ status
    → status < 300
    → parse_http_response u raw ≡ ok (u.lossy (drop (sep + 4) raw))
unfolding parse_http_response
parse_http_response_complete u raw sep status q v r low high = ground arith

-- A response is accepted exactly where its header, which stands before the first blank line, is
-- UTF-8 and says a status from 200 to 299; the body is then what comes after the blank line.
pub parse_http_response_iff :
    (u : Utf8) (raw : List ℕ) (body : Text)
    → (parse_http_response u raw ≡ ok body) ↔ (
        (sep : ℕ) × (status : ℕ) × (find_separator raw ≡ some sep)
        × (u.is_utf8 (take sep raw) ≡ true)
        × (status_of (take sep raw) ≡ ok status)
        × (200 ≤ status)
        × (status < 300)
        × (body ≡ u.lossy (drop (sep + 4) raw)))
parse_http_response_iff u raw body = (
  λ h.
      let (sep, status, q, r, low, high, e) = parse_http_response_sound u raw body h in
      (sep, status, q, parse_http_response-utf8 u raw body sep q h, r, low, high, e),
  λ (sep, status, q, v, r, low, high, e).
      parse_http_response_complete u raw sep status q v r low high ∙ ap ok (sym e),
)
