-- ===== src/Base/Results.antt =====
-- `Result<A, E>`, with `?` as bind.
use mathlib.Core.Option.{Option, none, some}
use mathlib.Core.Path.{◌≡◌, refl}
use mathlib.Core.Bool.{Bool, true, false}
use mathlib.Core.Logic.{◌⊎◌, inl, inr}

pub data Result {ℓ κ} (E : Type ℓ) (A : Type κ) : Type (ℓ ⊔ κ) where
  err : E → Result E A
  ok : A → Result E A

-- `ok_or_else`
abbrev pub ok_or {ℓ κ} : {E : Type ℓ} {A : Type κ} → E → Option A → Result E A
ok_or missing (some found) = ok found
ok_or missing none = err missing

-- `unwrap_or`
abbrev pub unwrap_or {ℓ} : {A : Type ℓ} → A → Option A → A
unwrap_or default (some found) = found
unwrap_or default none = default

-- `Option::or`
abbrev pub or_else {ℓ} : {A : Type ℓ} → Option A → Option A → Option A
or_else (some first) second = some first
or_else none second = second

-- `map_err`
abbrev pub map_err {ℓ κ μ} :
    {E : Type ℓ} {F : Type μ} {A : Type κ} → (E → F) → Result E A → Result F A
map_err convert (err why) = err (convert why)
map_err convert (ok value) = ok value

module _ {ℓ κ μ} {E : Type ℓ} {A : Type κ} {B : Type μ} where
  infixl 5 ◌>>=◌ ◌>>◌
  -- `?`
  abbrev pub ◌>>=◌ : Result E A → (A → Result E B) → Result E B
  err why >>= continue = err why
  ok value >>= continue = continue value

  -- `?` on a result whose value is not used
  abbrev pub ◌>>◌ : Result E A → Result E B → Result E B
  err why >> next = err why
  ok value >> next = next

  -- A `?` that goes on had a value to go on with.
  pub >>=-eq-ok :
      (r : Result E A) (continue : A → Result E B) {last : B}
      → (r >>= continue) ≡ ok last
      → (value : A) × (r ≡ ok value) × (continue value ≡ ok last)
  >>=-eq-ok (err why) continue done = cc
  >>=-eq-ok (ok value) continue done = (value, refl, done)

-- `if !test { return Err(why) }`
abbrev pub ensure {ℓ} : {E : Type ℓ} → Bool → E → Result E (Unit {0})
ensure test why = elim test [ true ↦ ok tt | false ↦ err why ]

pub Result-cases {ℓ κ} :
    {E : Type ℓ} {A : Type κ} (r : Result E A) → ((a : A) × (r ≡ ok a)) ⊎ ((e : E) × (r ≡ err e))
Result-cases (err why) = inr (why, refl)
Result-cases (ok value) = inl (value, refl)
