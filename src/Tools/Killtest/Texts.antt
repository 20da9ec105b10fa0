-- ===== src/Tools/Killtest/Texts.antt =====
-- `str::contains` of examples/killtest.rs against an independent description.
use remo_broker.Base.{
  ◌≡◌, ◌↔◌, inl, inr, refl, ap, true, [], ◌∷◌, ◌++◌, Text, is_empty, starts_with, arith, Bool-cases,
}
use remo_broker.Tools.Killtest.{has}

-- The value stands somewhere in the text.
abbrev pub Occurs : Text → Text → Type 0
Occurs value content = (a b : Text) × (content ≡ a ++ (value ++ b))

starts_with_sound : (s v : Text) → starts_with s v ≡ true → (b : Text) × (s ≡ v ++ b)
unfolding starts_with
starts_with_sound s [] h = (s, refl)
starts_with_sound [] (y ∷ ys) h = cc
starts_with_sound (x ∷ xs) (y ∷ ys) h =
    let (b, e) = starts_with_sound xs ys (ground arith) in (b, ground arith)

starts_with-append : (v b : Text) → starts_with (v ++ b) v ≡ true
unfolding starts_with
starts_with-append [] b = refl
starts_with-append (x ∷ v) b = ground (arith, starts_with-append v b)

has_sound : (s v : Text) → has s v ≡ true → Occurs v s
unfolding has is_empty
has_sound [] [] h = ([], [], refl)
has_sound [] (x ∷ v) h = cc
has_sound (c ∷ s) v h = elim (Bool-cases (starts_with (c ∷ s) v)) [
  | inl q ↦ let (b, e) = starts_with_sound (c ∷ s) v q in ([], b, e)
  | inr q ↦ let (a, b, e) = has_sound s v (ground arith) in (c ∷ a, b, ap (◌∷◌ c) e)
]

has-starts_with : (s v : Text) → starts_with s v ≡ true → has s v ≡ true
unfolding has is_empty starts_with
has-starts_with [] [] h = refl
has-starts_with [] (x ∷ v) h = cc
has-starts_with (c ∷ s) v h = rw h refl

has-append : (a v b : Text) → has (a ++ (v ++ b)) v ≡ true
unfolding has
has-append [] v b = has-starts_with (v ++ b) v (starts_with-append v b)
has-append (c ∷ a) v b = ground (arith, has-append a v b)

pub has_iff : (s v : Text) → (has s v ≡ true) ↔ Occurs v s
has_iff s v = (has_sound s v, λ o. let (a, b, e) = o in rw e (has-append a v b))
