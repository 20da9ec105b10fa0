-- ===== src/Manifest/Secrets.antt =====
-- The allowlist loop of src/manifest.rs, against lists of distinct secret names.
use remo_broker.Base.{
  ◌≡◌, ◌↔◌, sym, refl, true, not, List, [], ◌∷◌, arith, All, Text, contains, contains_iff,
  Bool-cases, inl, inr, ok,
}
use remo_broker.Base.Texts.{Among}
use remo_broker.Manifest.{check_secrets}
use remo_broker.Manifest.Names.{IsSecretName, is_valid_secret_name_iff}

abbrev pub IsDistinct : List Text → Type 0
IsDistinct [] = Unit
IsDistinct (x ∷ xs) = (¬ Among x xs) × IsDistinct xs

-- None of the names is among those seen before.
abbrev pub Avoids : List Text → List Text → Type 0
Avoids seen = All (λ n. ¬ Among n seen)

Avoids-cons :
    (name : Text) (seen names : List Text)
    → Avoids (name ∷ seen) names ↔ (Avoids seen names × (¬ Among name names))
Avoids-cons name seen [] = (λ h. (tt, λ a. a), λ h. tt)
Avoids-cons name seen (n ∷ ns) = (
  λ h.
      let rest = (Avoids-cons name seen ns).0 h.1 in
      ((λ a. h.0 (inr a), rest.0), elim [ inl e ↦ h.0 (inl (sym e)) | inr a ↦ rest.1 a ]),
  λ h. (
    elim [ inl e ↦ h.1 (inl (sym e)) | inr a ↦ h.0.0 a ],
    (Avoids-cons name seen ns).1 (h.0.1, λ a. h.1 (inr a)),
  ),
)

contains-eq-false : (xs : List Text) (a : Text) → (not (contains xs a) ≡ true) ↔ (¬ Among a xs)
contains-eq-false xs a = (
  λ h m. ground (arith, (contains_iff xs a).1 m),
  λ h. elim (Bool-cases (contains xs a)) [
    | inl seen ↦ absurd (h ((contains_iff xs a).0 seen))
    | inr new ↦ rw new
  ],
)

pub check_secrets_iff :
    (seen names : List Text)
    → (check_secrets seen names ≡ ok tt)
      ↔ (All IsSecretName names × IsDistinct names × Avoids seen names)
unfolding check_secrets
check_secrets_iff seen [] = (λ h. (tt, tt, tt), λ h. refl)
check_secrets_iff seen (name ∷ names) =
    let valid = is_valid_secret_name_iff name in
    let new = contains-eq-false seen name in
    let rest = check_secrets_iff (name ∷ seen) names in
    let avoids = Avoids-cons name seen names in
    (
      λ h.
          let r = rest.0 (ground arith) in
          let a = avoids.0 r.2 in
          ((valid.0 (ground arith), r.0), (a.1, r.1), (new.0 (ground arith), a.0)),
      λ h. rw (valid.1 h.0.0, new.1 h.2.0) (rest.1 (h.0.1, h.1.1, avoids.1 (h.2.1, h.1.0))),
    )
