-- ===== src/Server/Connection/Lines.antt =====
-- What a connection of src/server.rs answers.
use remo_broker.Base.{
  ℕ, zero, suc, ◌+◌, ◌<◌, ◌≡◌, ◌≢◌, refl, true, false, List, [], ◌∷◌, ◌++◌, Text, length,
  length-append, ◌⊎◌, ends_with, All, is_empty, arith, ok, Option-cases, none, some, Result-cases,
  Bool-cases, inl, inr, ap,
}
use remo_broker.Proto.{max_message_bytes}
use remo_broker.Server.Connection.{
  newline, read_until, read_line_capped, eof, read_failed, waiting, write_failed, out_of_fuel,
  refused_line, Client, Closed, closes, breaks, stays, cut_off, too_long, Served, answered, Service,
  respond, serve,
}
use remo_broker.Server.Connection.Framing.{
  IsLine, read_line_capped-line, read_line_capped-append, read_line_capped-err, ends_with_append,
}

-- How a connection ends whose client sends no more.
abbrev pub end_of : Client → Closed
end_of closes = eof
end_of breaks = read_failed
end_of stays = waiting

cut_off-line : (client : Client) (l : Text) → cut_off client (l ++ (newline ∷ [])) ≡ none
unfolding cut_off
cut_off-line closes l = refl
cut_off-line breaks l = rw (ends_with_append l newline) refl
cut_off-line stays l = rw (ends_with_append l newline) refl

cut_off-end :
    (client : Client) (line : Text) (c : Closed)
    → cut_off client line ≡ some c
    → (c ≡ end_of client) × (client ≢ closes)
unfolding cut_off
cut_off-end closes line c h = absurd (ground arith)
cut_off-end breaks line c h = (ground arith, ground arith)
cut_off-end stays line c h = (ground arith, ground arith)

cut_off-empty : (client : Client) → cut_off client [] ≡ none → client ≡ closes
unfolding cut_off ends_with
cut_off-empty closes h = refl
cut_off-empty breaks h = absurd (ground arith)
cut_off-empty stays h = absurd (ground arith)

cut_off-nothing :
    (client : Client)
    → ((cut_off client [] ≡ none) × (end_of client ≡ eof))
      ⊎ (cut_off client [] ≡ some (end_of client))
unfolding cut_off ends_with
cut_off-nothing closes = inl (refl, refl)
cut_off-nothing breaks = inr refl
cut_off-nothing stays = inr refl

zero_more : (n : ℕ) → n + 0 ≡ n
zero_more n = omega arith

one_more : (n k : ℕ) → n + suc k ≡ (n + 1) + k
one_more n k = omega arith

no_bytes :
    (client : Client) (line : Text)
    → is_empty line ≡ true
    → cut_off client line ≡ none
    → cut_off client [] ≡ none
unfolding is_empty
no_bytes client [] t u = u
no_bytes client (b ∷ line) t u = cc

-- Lines, each with its newline.
abbrev pub encode : List Text → Text
encode [] = []
encode (l ∷ ls) = l ++ (newline ∷ encode ls)

abbrev pub IsMessage : Text → Type 0
IsMessage l = IsLine l × (length l < max_message_bytes)

not_empty_append : (l : Text) (b : ℕ) → is_empty (l ++ (b ∷ [])) ≡ false
unfolding is_empty
not_empty_append [] b = refl
not_empty_append (x ∷ l) b = refl

rest_shorter :
    (stream line rest : Text)
    → read_line_capped max_message_bytes stream ≡ ok (line, rest)
    → is_empty line ≡ false
    → length rest < length stream
unfolding is_empty
rest_shorter stream [] rest h t = cc
rest_shorter stream (b ∷ line) rest h t =
    let e = read_line_capped-append max_message_bytes stream (b ∷ line) rest h in
    rw⁻¹ e (omega (arith, length-append line rest))

module _ {S Q R : Type 0} (v : Service S Q R) where
  -- The lines one after the other, each answered on the state that the last has left.
  abbrev pub in_turn : ℕ → List Text → S → Served S R
  in_turn n [] s = record { closed = end_of v.client; responses = []; state = s }
  in_turn n (l ∷ ls) s =
      let (r, s') = respond v n (l ++ (newline ∷ [])) s in answered r (in_turn (n + 1) ls s')

  serve-nothing :
      (fuel n : ℕ) (s : S)
      → serve v (suc fuel) n [] s ≡ record { closed = end_of v.client; responses = []; state = s }
  unfolding serve read_line_capped read_until is_empty
  serve-nothing fuel n s = elim (cut_off-nothing v.client) [
    | inl (u, e) ↦ rw (u, e, serve) refl
    | inr u ↦ rw (u, serve) refl
  ]

  -- Where every answer is written, a stream of messages, none longer than the limit, is answered
  -- message by message in order, each on the state that the last has left, and ends as the client
  -- does.
  pub serve-encode :
      (fuel n : ℕ) (ls : List Text) (s : S)
      → ((k : ℕ) → v.delivers k ≡ true)
      → All IsMessage ls
      → length ls < fuel
      → serve v fuel n (encode ls) s ≡ in_turn n ls s
  unfolding serve
  serve-encode zero n ls s delivers messages enough_fuel = absurd (omega arith)
  serve-encode (suc fuel) n [] s delivers messages enough_fuel = serve-nothing fuel n s
  serve-encode (suc fuel) n (l ∷ ls) s delivers (m, messages) enough_fuel =
      rw
        (
          read_line_capped-line max_message_bytes l (encode ls) m.0 m.1,
          cut_off-line,
          not_empty_append,
          delivers n,
          serve,
        )
        (ap (answered _) (serve-encode fuel (n + 1) ls _ delivers messages (omega arith)))

  -- How a connection ends, by the first of its answers and their number: at the end of the client's
  -- bytes as the client does, with a message that is too long, or with the first answer that cannot
  -- be written.
  abbrev pub IsEnd : ℕ → Closed → Type 0
  IsEnd n eof = v.client ≡ closes
  IsEnd n read_failed = v.client ≡ breaks
  IsEnd n waiting = v.client ≡ stays
  IsEnd n write_failed = v.delivers n ≡ false
  IsEnd n (refused_line m) = m ≡ too_long max_message_bytes
  IsEnd n out_of_fuel = ⊥

  IsEnd-end_of : (n : ℕ) (client : Client) → v.client ≡ client → IsEnd n (end_of client)
  IsEnd-end_of n closes h = h
  IsEnd-end_of n breaks h = h
  IsEnd-end_of n stays h = h

  -- Fuel for every byte is enough.
  pub serve-IsEnd :
      (fuel n : ℕ) (stream : Text) (s : S)
      → length stream < fuel
      → let r = serve v fuel n stream s in IsEnd (n + length r.responses) r.closed
  unfolding serve
  serve-IsEnd zero n stream s enough_fuel = absurd (omega arith)
  serve-IsEnd (suc fuel) n stream s enough_fuel =
      elim (Result-cases (read_line_capped max_message_bytes stream)) [
        | inr (e, q) ↦ rw (q, serve) ((read_line_capped-err max_message_bytes stream e q).0)
        | inl ((line, rest), q) ↦ elim (Option-cases (cut_off v.client line)) [
          | inr (c, u) ↦
              rw (q, u, serve)
                (rw ((cut_off-end v.client line c u).0) (IsEnd-end_of (n + 0) v.client refl))
          | inl u ↦ elim (Bool-cases (is_empty line)) [
            | inl t ↦ rw (q, u, t, serve) (cut_off-empty v.client (no_bytes v.client line t u))
            | inr t ↦ elim (Bool-cases (v.delivers n)) [
              | inr w ↦ rw (q, u, t, w, serve) (rw (zero_more n) w)
              | inl w ↦
                  let after = (respond v n line s).1 in
                  let shorter = rest_shorter stream line rest q t in
                  let rec = serve-IsEnd fuel (n + 1) rest after (omega (arith, shorter)) in
                  rw (q, u, t, w, serve) (rw (one_more n _) rec)
            ]
          ]
        ]
      ]

  respond-keeps :
      (P : S → Type 0)
      → ((n : ℕ) (q : Q) (s : S) → P s → P (v.dispatch n q s).1)
      → (n : ℕ) (line : Text) (s : S) → P s
      → P (respond v n line s).1
  unfolding respond
  respond-keeps P keeps n line s h = elim (Result-cases (v.parse line)) [
    | inl (q, e) ↦ rw (e, respond) (keeps n q s h)
    | inr (m, e) ↦ rw (e, respond) h
  ]

  -- What every request keeps, a connection keeps.
  pub serve-keeps :
      (P : S → Type 0)
      → ((n : ℕ) (q : Q) (s : S) → P s → P (v.dispatch n q s).1)
      → (fuel n : ℕ) (stream : Text) (s : S) → P s
      → P (serve v fuel n stream s).state
  unfolding serve
  serve-keeps P keeps zero n stream s h = h
  serve-keeps P keeps (suc fuel) n stream s h =
      elim (Result-cases (read_line_capped max_message_bytes stream)) [
        | inr (e, q) ↦ rw (q, serve) h
        | inl ((line, rest), q) ↦
            let one : P (respond v n line s).1 = respond-keeps P keeps n line s h in
            elim (Option-cases (cut_off v.client line)) [
              | inr (c, u) ↦ rw (q, u, serve) h
              | inl u ↦ elim (Bool-cases (is_empty line)) [
                | inl t ↦ rw (q, u, t, serve) h
                | inr t ↦ elim (Bool-cases (v.delivers n)) [
                  | inr w ↦ rw (q, u, t, w, serve) one
                  | inl w ↦ rw (q, u, t, w, serve) (serve-keeps P keeps fuel (n + 1) rest _ one)
                ]
              ]
            ]
      ]
