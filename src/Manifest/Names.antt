-- ===== src/Manifest/Names.antt =====
-- The two name tests of src/manifest.rs against the regular expressions that they implement.
use remo_broker.Base.{
  ℕ, ◌≤◌, ◌≡◌, ◌≢◌, ◌↔◌, ◌⊎◌, true, ◌||◌, [], ◌∷◌, arith, length, All, all_iff, Text, ◌==◌, inl,
}
use remo_broker.Manifest.{
  is_ascii_lowercase, is_ascii_digit, is_ascii_alphanumeric, is_valid_project_name,
  is_valid_secret_name,
}

-- `[a-z0-9]`
abbrev pub LowerOrDigit : ℕ → Type 0
LowerOrDigit b = ((b'a' ≤ b) × (b ≤ b'z')) ⊎ ((b'0' ≤ b) × (b ≤ b'9'))

-- `[a-z0-9_-]`
abbrev pub ProjectByte : ℕ → Type 0
ProjectByte b = LowerOrDigit b ⊎ (b ≡ b'_') ⊎ (b ≡ b'-')

-- `[A-Za-z0-9_]`
abbrev pub SecretByte : ℕ → Type 0
SecretByte b = LowerOrDigit b ⊎ ((b'A' ≤ b) × (b ≤ b'Z')) ⊎ (b ≡ b'_')

-- `^[a-z0-9][a-z0-9_-]{0,63}$`
abbrev pub IsProjectName : Text → Type 0
IsProjectName [] = ⊥
IsProjectName (first ∷ rest) = LowerOrDigit first × All ProjectByte rest × (length rest ≤ 63)

-- `^[A-Za-z0-9_]{1,128}$`
abbrev pub IsSecretName : Text → Type 0
IsSecretName s = (1 ≤ length s) × (length s ≤ 128) × All SecretByte s

ProjectByte-iff :
    (b : ℕ)
    → ((is_ascii_lowercase b || is_ascii_digit b || b == b'_' || b == b'-') ≡ true) ↔ ProjectByte b
unfolding is_ascii_lowercase is_ascii_digit
ProjectByte-iff b = (ground arith, ground arith)

SecretByte-iff : (b : ℕ) → ((is_ascii_alphanumeric b || b == b'_') ≡ true) ↔ SecretByte b
unfolding is_ascii_alphanumeric
SecretByte-iff b = (ground arith, ground arith)

-- The test accepts exactly the texts that match `^[a-z0-9][a-z0-9_-]{0,63}$`.
pub is_valid_project_name_iff : (s : Text) → (is_valid_project_name s ≡ true) ↔ IsProjectName s
unfolding is_valid_project_name
is_valid_project_name_iff [] = (λ h. cc, λ h. absurd h)
is_valid_project_name_iff (first ∷ rest) =
    let bytes = all_iff _ ProjectByte ProjectByte-iff rest in
    (λ h. (ground arith, bytes.0 (ground arith), ground arith), λ h. ground (arith, bytes.1 h.1))

-- The test accepts exactly the texts that match `^[A-Za-z0-9_]{1,128}$`.
pub is_valid_secret_name_iff : (s : Text) → (is_valid_secret_name s ≡ true) ↔ IsSecretName s
unfolding is_valid_secret_name
is_valid_secret_name_iff [] = (λ h. cc, λ h. absurd (omega (arith, h.0)))
is_valid_secret_name_iff (b ∷ s) =
    let bytes = all_iff _ SecretByte SecretByte-iff (b ∷ s) in
    (λ h. (omega arith, ground arith, bytes.0 (ground arith)), λ h. ground (arith, bytes.1 h.2))

not_slash : (b : ℕ) → ProjectByte b → b ≢ b'/'
not_slash b h e = ground arith

not_slash-All : (s : Text) → All ProjectByte s → All (λ b. b ≢ b'/') s
not_slash-All [] h = tt
not_slash-All (b ∷ s) h = (not_slash b h.0, not_slash-All s h.1)

-- No byte of a project name is a path separator.
pub IsProjectName-no_slash : (s : Text) → IsProjectName s → All (λ b. b ≢ b'/') s
IsProjectName-no_slash [] h = absurd h
IsProjectName-no_slash (b ∷ s) h = (not_slash b (inl h.0), not_slash-All s h.1)
