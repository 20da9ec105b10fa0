-- ===== src/Server/Concurrent/Tasks.antt =====
-- Families by number, changed at one: the tasks and the projects of Server/Concurrent.
use remo_broker.Base.{ℕ, ◌≡◌, ◌≢◌, inl, inr, ◌==◌, Bool-cases, arith}
use remo_broker.Server.Concurrent.{set_at}

-- What holds of the new member and of all old ones holds of all.
pub set_at-all {ℓ κ} :
    {A : Type ℓ} (P : A → Type κ) (f : ℕ → A) (i : ℕ) (a : A)
    → P a
    → ((j : ℕ) → P (f j))
    → (j : ℕ) → P (set_at f i a j)
set_at-all P f i a h hs j = elim (Bool-cases (j == i)) [
  | inl here ↦ rw here h
  | inr there ↦ rw there (hs j)
]

pub set_at_self {ℓ} : {A : Type ℓ} (f : ℕ → A) (i : ℕ) (a : A) → set_at f i a i ≡ a
set_at_self f i a = ground arith

pub set_at_ne {ℓ} : {A : Type ℓ} (f : ℕ → A) (i j : ℕ) (a : A) → j ≢ i → set_at f i a j ≡ f j
set_at_ne f i j a h = ground arith
