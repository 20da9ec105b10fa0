-- ===== src/Bootstrap/Http.antt =====
-- `parse_http_response` of src/bootstrap.rs. UTF-8 decoding is the standard library's.
use remo_broker.Base.{
  length, zero, ℕ, suc, ◌+◌, Bool, Option, none, some, List, [], ◌∷◌, Text, ltb, leb, ◌&&◌, ◌==◌,
  if◌then◌else◌, Result, ok, ok_or, ensure, ◌>>=◌, ◌>>◌, head?, take, drop,
}
use mathlib.Core.List.{reverse}
use remo_broker.Base.Paths.{split}
use remo_broker.Base.Trim.{strip_space}
use remo_broker.Base.{starts_with}
use remo_broker.Bootstrap.Url.{parse_u16}

-- `std::str::from_utf8` succeeds, and `String::from_utf8_lossy`.
pub record Utf8 : Type 0 where
  pub is_utf8 : List ℕ → Bool
  pub lossy : List ℕ → Text

pub data HttpError : Type 0 where
  malformed : HttpError
  status_error : ℕ → Text → HttpError

abbrev pub separator : List ℕ
separator = 13 ∷ 10 ∷ 13 ∷ 10 ∷ []

-- `windows(4).position(|w| w == b"\r\n\r\n")`
unfoldable pub find_separator : List ℕ → Option ℕ
find_separator [] = none
find_separator (c ∷ s) =
    if starts_with (c ∷ s) separator
    then some 0
    else elim (find_separator s) [ none ↦ none | some n ↦ some (suc n) ]

-- A line without its carriage return.
unfoldable pub strip_cr : Text → Text
strip_cr [] = []
strip_cr (c ∷ []) = if c == 13 then [] else c ∷ []
strip_cr (c ∷ d ∷ s) = c ∷ strip_cr (d ∷ s)

abbrev pub drop_last_empty : List Text → List Text
drop_last_empty [] = []
drop_last_empty ([] ∷ []) = []
drop_last_empty ((c ∷ w) ∷ []) = (c ∷ w) ∷ []
drop_last_empty (w ∷ v ∷ ws) = w ∷ drop_last_empty (v ∷ ws)

abbrev strip_all_cr : List Text → List Text
strip_all_cr [] = []
strip_all_cr (w ∷ ws) = strip_cr w ∷ strip_all_cr ws

-- `str::lines`
unfoldable pub lines : Text → List Text
unfolding strip_cr
lines s = strip_all_cr (drop_last_empty (split 10 s))

-- `split_whitespace`, for the ASCII white space of a status line.
unfoldable pub push_word : Text → List Text → List Text
push_word [] ws = ws
push_word (c ∷ w) ws = (c ∷ w) ∷ ws

-- `split_whitespace` of a text, after a word that has begun and is kept backwards. Each round takes a
-- byte at least, so the length is fuel enough.
unfoldable pub words_from : ℕ → Text → Text → List Text
unfolding push_word strip_space
words_from zero word s = push_word (reverse word) []
words_from (suc n) word [] = push_word (reverse word) []
words_from (suc n) word (c ∷ s) = elim (strip_space (c ∷ s)) [
  | some rest ↦ push_word (reverse word) (words_from n [] rest)
  | none ↦ words_from n (c ∷ word) s
]

abbrev pub second {ℓ} : {A : Type ℓ} → List A → Option A
second [] = none
second (w ∷ []) = none
second (w ∷ v ∷ ws) = some v

-- The number that is the second word of the first line.
unfoldable pub status_of : Text → Result HttpError ℕ
unfolding words_from lines
status_of header = do
  status_line ← ok_or malformed (head? (lines header))
  word ← ok_or malformed (second (words_from (length status_line) [] status_line))
  ok_or malformed (parse_u16 word)

unfoldable pub parse_http_response : Utf8 → List ℕ → Result HttpError Text
unfolding status_of
parse_http_response u raw = do
  sep ← ok_or malformed (find_separator raw)
  ensure (u.is_utf8 (take sep raw)) malformed
  status ← status_of (take sep raw)
  let body = u.lossy (drop (sep + 4) raw)
  ensure (leb 200 status && ltb status 300) (status_error status body)
  ok body
