-- ===== src/Server/Connection/Framing.antt =====
-- `read_line_capped` of src/server.rs: how the bytes of a connection fall into lines.
use remo_broker.Base.{
  ℕ, zero, suc, ◌<◌, ◌≡◌, ◌⊎◌, inl, inr, Bool-cases, refl, ◌==◌, not, true, false, [], ◌∷◌, ◌++◌,
  Text, length, all, ends_with, arith, ok, err, sym, ◌↔◌,
}
use mathlib.Core.List.{append-nil, append_assoc}
use remo_broker.Proto.{Message}
use remo_broker.Server.Connection.{newline, too_long, read_until, read_line_capped}

-- A line before its newline.
abbrev pub IsLine : Text → Type 0
IsLine l = all (λ b. not (b == newline)) l ≡ true

-- A message that was read from the start of a stream, and what is left: its bytes up to the first
-- newline and this newline, or the bytes of a stream that ended before one.
abbrev pub IsRead : ℕ → Text → Text → Type 0
IsRead max_bytes line rest =
    ((l : Text) × (line ≡ l ++ (newline ∷ [])) × IsLine l × (length l < max_bytes))
    ⊎ ((rest ≡ []) × IsLine line × (length line < max_bytes))

read_until-line :
    (limit : ℕ) (l rest : Text)
    → IsLine l
    → length l < limit
    → read_until limit (l ++ (newline ∷ rest)) ≡ (l ++ (newline ∷ []), rest)
unfolding read_until
read_until-line zero l rest clean short = absurd (omega arith)
read_until-line (suc limit) [] rest clean short = refl
read_until-line (suc limit) (b ∷ l) rest clean short = ground (arith, read_until-line limit l rest)

read_until_splits : (limit : ℕ) (s : Text) → (read_until limit s).0 ++ (read_until limit s).1 ≡ s
unfolding read_until
read_until_splits zero s = refl
read_until_splits (suc limit) [] = refl
read_until_splits (suc limit) (b ∷ s) = ground (arith, read_until_splits limit s)

pub ends_with_append : (l : Text) (b : ℕ) → ends_with (l ++ (b ∷ [])) b ≡ true
unfolding ends_with
ends_with_append [] b = ground arith
ends_with_append (x ∷ []) b = ground arith
ends_with_append (x ∷ y ∷ l) b = ends_with_append (y ∷ l) b

-- A message of fewer bytes than the limit is read whole, with its newline, and nothing behind it
-- is.
pub read_line_capped-line :
    (max_bytes : ℕ) (l rest : Text)
    → IsLine l
    → length l < max_bytes
    → read_line_capped max_bytes (l ++ (newline ∷ rest)) ≡ ok (l ++ (newline ∷ []), rest)
unfolding read_line_capped
read_line_capped-line max_bytes l rest clean short =
    rw (read_until-line max_bytes l rest clean short, ends_with_append) (ground arith)

read_until-IsLine :
    (limit : ℕ) (s : Text)
    → IsRead limit (read_until limit s).0 (read_until limit s).1
      ⊎ (IsLine (read_until limit s).0 × (length (read_until limit s).0 ≡ limit))
unfolding read_until
read_until-IsLine zero s = inr (refl, refl)
read_until-IsLine (suc limit) [] = inl (inr (refl, refl, omega arith))
read_until-IsLine (suc limit) (b ∷ s) = elim (Bool-cases (b == newline)) [
  | inl q ↦ rw q (inl (inl ([], ground arith, refl, omega arith)))
  | inr q ↦ rw q (elim (read_until-IsLine limit s) [
    | inl (inl (l, e, clean, short)) ↦ inl (inl (b ∷ l, ground arith, ground arith, ground arith))
    | inl (inr (e, clean, short)) ↦ inl (inr (e, ground arith, ground arith))
    | inr (clean, full) ↦ inr (ground arith, ground arith)
  ])
]

-- No newline in so many bytes.
read_until_cut : (l rest : Text) → IsLine l → read_until (length l) (l ++ rest) ≡ (l, rest)
unfolding read_until
read_until_cut [] rest clean = refl
read_until_cut (b ∷ l) rest clean = ground (arith, read_until_cut l rest)

not_ends_with : (l : Text) → IsLine l → ends_with l newline ≡ false
unfolding ends_with
not_ends_with [] clean = refl
not_ends_with (x ∷ []) clean = ground arith
not_ends_with (x ∷ y ∷ l) clean = ground (arith, not_ends_with (y ∷ l))

-- A stream that starts with as many bytes as the limit and no newline among them is refused,
-- whatever comes behind: a newline just there too.
pub read_line_capped_refuses :
    (l rest : Text) → IsLine l → read_line_capped (length l) (l ++ rest) ≡ err (too_long (length l))
unfolding read_line_capped
read_line_capped_refuses l rest clean =
    rw (read_until_cut l rest clean, not_ends_with l clean) (ground arith)

read_line_capped-IsRead :
    (max_bytes : ℕ) (s line rest : Text)
    → read_line_capped max_bytes s ≡ ok (line, rest)
    → IsRead max_bytes line rest
unfolding read_line_capped
read_line_capped-IsRead max_bytes s line rest h =
    let same_line : read_until max_bytes s ≡ (line, rest) = ground arith in
    elim (read_until-IsLine max_bytes s) [
      | inl r ↦ ground arith
      | inr (clean, full) ↦ absurd (ground (arith, not_ends_with (read_until max_bytes s).0 clean))
    ]

read_until-end : (limit : ℕ) (l : Text) → IsLine l → length l < limit → read_until limit l ≡ (l, [])
unfolding read_until
read_until-end zero l clean short = absurd (omega arith)
read_until-end (suc limit) [] clean short = refl
read_until-end (suc limit) (b ∷ l) clean short = ground (arith, read_until-end limit l)

read_line_capped-end :
    (max_bytes : ℕ) (l : Text)
    → IsLine l
    → length l < max_bytes
    → read_line_capped max_bytes l ≡ ok (l, [])
unfolding read_line_capped
read_line_capped-end max_bytes l clean short =
    rw (read_until-end max_bytes l clean short) (ground arith)

read_line_capped_complete :
    (max_bytes : ℕ) (line rest : Text)
    → IsRead max_bytes line rest
    → read_line_capped max_bytes (line ++ rest) ≡ ok (line, rest)
read_line_capped_complete max_bytes line rest (inl (l, e, clean, short)) =
    rw (e, append_assoc) (read_line_capped-line max_bytes l rest clean short)
read_line_capped_complete max_bytes line rest (inr (e, clean, short)) =
    rw (e, append-nil) (read_line_capped-end max_bytes line clean short)

pub read_line_capped-err :
    (max_bytes : ℕ) (s : Text) (m : Message)
    → read_line_capped max_bytes s ≡ err m
    → (m ≡ too_long max_bytes)
      × ((l : Text) × (rest : Text) × (s ≡ l ++ rest) × IsLine l × (length l ≡ max_bytes))
unfolding read_line_capped
read_line_capped-err max_bytes s m h = elim (read_until-IsLine max_bytes s) [
  | inr (clean, full) ↦ (ground arith, (_, _, sym (read_until_splits max_bytes s), clean, full))
  | inl (inl (l, e, clean, short)) ↦ absurd (ground (arith, ends_with_append l newline))
  | inl (inr (e, clean, short)) ↦ absurd (ground arith)
]

pub read_line_capped-append :
    (max_bytes : ℕ) (s line rest : Text)
    → read_line_capped max_bytes s ≡ ok (line, rest)
    → line ++ rest ≡ s
unfolding read_line_capped
read_line_capped-append max_bytes s line rest h =
    let same_line : read_until max_bytes s ≡ (line, rest) = ground arith in
    ground (arith, read_until_splits max_bytes s)

-- What a read does, on every stream. It gives a line and leaves a rest exactly where the two are
-- the stream and the line has fewer bytes before its newline than the limit: the first newline ends
-- it, or the end of the stream where no newline comes. It is refused, as too long, exactly where
-- the stream starts with as many bytes as the limit and no newline among them.
pub read_line_capped_iff :
    (max_bytes : ℕ) (s : Text)
    → ((line rest : Text)
        → (read_line_capped max_bytes s ≡ ok (line, rest))
          ↔ ((line ++ rest ≡ s) × IsRead max_bytes line rest))
      × ((m : Message)
          → (read_line_capped max_bytes s ≡ err m) ↔ (
              (m ≡ too_long max_bytes)
              × ((l : Text) × (rest : Text) × (s ≡ l ++ rest) × IsLine l × (length l ≡ max_bytes))))
read_line_capped_iff max_bytes s = (
  λ line rest. (
    λ h. (
      read_line_capped-append max_bytes s line rest h,
      read_line_capped-IsRead max_bytes s line rest h,
    ),
    λ (e, r). rw⁻¹ e (read_line_capped_complete max_bytes line rest r),
  ),
  λ m. (
    read_line_capped-err max_bytes s m,
    λ (e, (l, rest, split, clean, full)).
        rw (e, split) (rw⁻¹ full (read_line_capped_refuses l rest clean)),
  ),
)
