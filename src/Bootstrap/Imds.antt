-- ===== src/Bootstrap/Imds.antt =====
-- The exchanges with the metadata service in src/bootstrap.rs, described by what goes over the wire.

use remo_broker.Base.{
  ℕ, ◌≡◌, ◌↔◌, refl, ap, not, true, false, some, List, [], ◌∷◌, ◌++◌, All, find, map, Text, codes,
  subst, is_empty, starts_with, unwrap_or, arith, ok, >>=-eq-ok, Bool-cases, Result-cases, inl, inr,
}
use remo_broker.Base.Paths.{split}
use remo_broker.Base.Trim.{trim}
use remo_broker.Bootstrap.{
  World, Exchange, received, imds_base_url, imds_timeout, received_body, imds_round_trip,
  credentials_endpoint, token_endpoint, token_request, get_request, first_role, fetch_imds_at,
  fetch_imds_metadata_token, fetch_imds_role_name, fetch_imds_role_credentials,
}
use remo_broker.Bootstrap.Http.{parse_http_response, lines}
use remo_broker.Bootstrap.Url.{parse_base_url, parse_authority, rsplit_once}

-- The metadata service, on its fixed address, answers the request with the body.
abbrev pub Answers : World → Text → Text → Type 0
Answers w request body =
    (raw : List ℕ) × (w.exchange (codes "169.254.169.254") 80 imds_timeout request ≡ received raw)
    × (parse_http_response w.utf8 raw ≡ ok body)

-- The first line of the body that is not blank, trimmed.
abbrev pub IsFirstRole : Text → Text → Type 0
IsFirstRole body role =
    (blanks : List Text) × (line : Text) × (rest : List Text) × (lines body
      ≡ blanks ++ (line ∷ rest))
    × All (λ l. is_empty (trim l) ≡ true) blanks
    × (role ≡ trim line)
    × (is_empty role ≡ false)

-- The three exchanges, each with what the one before it gave.
abbrev pub IsGranted : World → Text → Type 0
IsGranted w t =
    (metadata : Text) × (listing : Text) × (role : Text) × Answers w token_request metadata
    × (is_empty (trim metadata) ≡ false)
    × Answers w (get_request credentials_endpoint (trim metadata)) listing
    × IsFirstRole listing role
    × Answers w (get_request (credentials_endpoint ++ role) (trim metadata)) t

imds_url : parse_base_url imds_base_url ≡ some (codes "169.254.169.254", 80)
unfolding parse_base_url parse_authority rsplit_once starts_with is_empty split
imds_url = refl

received_body_sound :
    (w : World) (host : Text) (port : ℕ) (endpoint : Text) (timeout : ℕ) (e : Exchange)
    (body : Text)
    → received_body w host port endpoint timeout e ≡ ok body
    → (raw : List ℕ) × (e ≡ received raw) × (parse_http_response w.utf8 raw ≡ ok body)
unfolding received_body
received_body_sound w host port endpoint timeout (Exchange.connect_failed m) body h =
    absurd (ground arith)
received_body_sound w host port endpoint timeout (Exchange.io_failed m) body h =
    absurd (ground arith)
received_body_sound w host port endpoint timeout Exchange.timed_out body h = absurd (ground arith)
received_body_sound w host port endpoint timeout (received raw) body h =
    elim (Result-cases (parse_http_response w.utf8 raw)) [
      | inl (b, q) ↦ (raw, refl, ground arith)
      | inr (m, q) ↦ absurd (ground arith)
    ]

imds_round_trip_iff :
    (w : World) (endpoint request body : Text)
    → (imds_round_trip w imds_base_url endpoint request imds_timeout ≡ ok body)
      ↔ Answers w request body
unfolding imds_round_trip received_body
imds_round_trip_iff w endpoint request body =
    rw (imds_url, imds_round_trip)
      (
        received_body_sound w (codes "169.254.169.254") 80 endpoint imds_timeout _ body,
        λ (raw, e, p). rw (e, received_body) (rw p refl),
      )

-- The first line of a list that is not blank.
first_sound :
    (ls : List Text)
    → is_empty (unwrap_or [] (find (λ l. not (is_empty l)) (map trim ls))) ≡ false
    → (blanks : List Text) × (line : Text) × (rest : List Text) × (ls ≡ blanks ++ (line ∷ rest))
      × All (λ l. is_empty (trim l) ≡ true) blanks
      × (unwrap_or [] (find (λ l. not (is_empty l)) (map trim ls)) ≡ trim line)
unfolding is_empty
first_sound [] h = absurd (ground arith)
first_sound (l ∷ ls) h = elim (Bool-cases (is_empty (trim l))) [
  | inr q ↦ ([], l, ls, refl, tt, rw q refl)
  | inl q ↦
      let (blanks, line, rest, e, all, v) = first_sound ls (ground arith) in
      (l ∷ blanks, line, rest, ap (◌∷◌ l) e, (q, all), ground arith)
]

first_complete :
    (blanks : List Text) (line : Text) (rest : List Text)
    → All (λ l. is_empty (trim l) ≡ true) blanks
    → is_empty (trim line) ≡ false
    → unwrap_or [] (find (λ l. not (is_empty l)) (map trim (blanks ++ (line ∷ rest)))) ≡ trim line
first_complete [] line rest all full = rw full refl
first_complete (l ∷ blanks) line rest (q, all) full =
    rw q (first_complete blanks line rest all full)

first_role-IsFirstRole :
    (body : Text) → is_empty (first_role body) ≡ false → IsFirstRole body (first_role body)
unfolding first_role
first_role-IsFirstRole body h =
    let (blanks, line, rest, e, all, v) = first_sound (lines body) h in
    (blanks, line, rest, e, all, v, h)

IsFirstRole-eq : (body role : Text) → IsFirstRole body role → first_role body ≡ role
unfolding first_role
IsFirstRole-eq body role (blanks, line, rest, e, all, v, full) =
    rw (e, v) (first_complete blanks line rest all (rw⁻¹ v full))

metadata_token_iff :
    (w : World) (token : Text)
    → (fetch_imds_metadata_token w imds_base_url imds_timeout ≡ ok token) ↔ (
        (body : Text) × Answers w token_request body
        × (token ≡ trim body)
        × (is_empty token ≡ false))
unfolding fetch_imds_metadata_token
metadata_token_iff w token =
    let trip = λ (body : Text). imds_round_trip_iff w token_endpoint token_request body in
    (
      λ h.
          let (body, p, rest) =
            >>=-eq-ok (imds_round_trip w imds_base_url token_endpoint token_request imds_timeout) _
              h in
          (body, (trip body).0 p, ground arith, ground arith),
      λ (body, a, e, full).
          rw ((trip body).1 a, fetch_imds_metadata_token) (ground (arith, e, full)),
    )

role_name_iff :
    (w : World) (token role : Text)
    → (fetch_imds_role_name w imds_base_url token imds_timeout ≡ ok role) ↔ (
        (body : Text) × Answers w (get_request credentials_endpoint token) body
        × IsFirstRole body role)
unfolding fetch_imds_role_name
role_name_iff w token role =
    let request = get_request credentials_endpoint token in
    let trip = λ (body : Text). imds_round_trip_iff w credentials_endpoint request body in
    (
      λ h.
          let (body, p, rest) =
            >>=-eq-ok (imds_round_trip w imds_base_url credentials_endpoint request imds_timeout) _
              h in
          let full : is_empty (first_role body) ≡ false = ground arith in
          let same_role : first_role body ≡ role = ground arith in
          (
            body,
            (trip body).0 p,
            subst (IsFirstRole body) same_role (first_role-IsFirstRole body full),
          ),
      λ (body, a, f).
          let (_, _, _, _, _, _, full) = f in
          rw ((trip body).1 a, IsFirstRole-eq body role f, full, fetch_imds_role_name) refl,
    )

-- A token comes from the metadata service exactly where the three exchanges give it.
pub fetch_imds_iff :
    (w : World) (t : Text) → (fetch_imds_at w imds_base_url imds_timeout ≡ ok t) ↔ IsGranted w t
unfolding fetch_imds_at fetch_imds_role_credentials
fetch_imds_iff w t = (
  λ h.
      let (token, p, rest) =
        >>=-eq-ok (fetch_imds_metadata_token w imds_base_url imds_timeout) _ h in
      let (role, q, last) =
        >>=-eq-ok (fetch_imds_role_name w imds_base_url token imds_timeout) _ rest in
      let (metadata, a, e, full) = (metadata_token_iff w token).0 p in
      let (listing, b, f) = (role_name_iff w token role).0 q in
      let c = (imds_round_trip_iff w (credentials_endpoint ++ role) _ t).0 last in
      (
        metadata,
        listing,
        role,
        a,
        rw⁻¹ e full,
        subst (λ u. Answers w (get_request credentials_endpoint u) listing) e b,
        f,
        subst (λ u. Answers w (get_request (credentials_endpoint ++ role) u) t) e c,
      ),
  λ (metadata, listing, role, a, full, b, f, c).
      rw
        (
          (metadata_token_iff w (trim metadata)).1 (metadata, a, refl, full),
          (role_name_iff w (trim metadata) role).1 (listing, b, f),
          fetch_imds_at,
        )
        ((imds_round_trip_iff w (credentials_endpoint ++ role) _ t).1 c),
)
