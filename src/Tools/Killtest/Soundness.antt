-- ===== src/Tools/Killtest/Soundness.antt =====
-- The verdict of examples/killtest.rs.
use remo_broker.Base.{
  ℕ, ◌+◌, ◌≡◌, ◌⊎◌, Bool, true, Option, none, some, List, [], ◌∷◌, length, Text, codes, All,
  is_empty, Result, ok,
}
use remo_broker.Bootstrap.Http.{lines}
use remo_broker.Tools.Killtest.{Round, Totals, Panic}
use remo_broker.Tools.Killtest.Texts.{Occurs}
use remo_broker.Tools.Killtest.Leaks.{LeaksIn}

-- Every line of the log that is not empty is JSON.
abbrev pub IsLine : (Text → Bool) → Text → Type 0
IsLine is_json line = (is_empty line ≡ true) ⊎ (is_json line ≡ true)

abbrev pub IsParseable : (Text → Bool) → Option Text → Type 0
IsParseable is_json none = Unit
IsParseable is_json (some content) = All (IsLine is_json) (lines content)

-- The daemon comes up beside what the last kill left: its sockets are bound, and it says that the
-- project is registered.
pub record Starts (r : Round) : Type 0 where
  pub spawns : r.spawns ≡ true
  pub admin : r.admin_connects ≡ true
  pub reply : Text
  pub replied : r.register_reply ≡ some reply
  pub accepted : Occurs (codes "\"ok\":true") reply
  pub project : r.project_connects ≡ true

-- The daemon starts, and after the kill no file leaks a value, and the log can be read.
abbrev pub IsSafe : (Text → Bool) → List Text → Round → Type 0
IsSafe is_json excluded r =
    Starts r × (¬ LeaksIn excluded r.sandbox) × IsParseable is_json r.audit_log

-- Every get of every round, answered or not.
abbrev pub tried : List Round → ℕ
tried [] = 0
tried (r ∷ rest) = length r.answered + tried rest

-- The test passes, and its totals are those of the rounds.
abbrev pub Passes : List Round → Totals → Result Panic Totals → Type 0
Passes rounds t r =
    (u : Totals) × (r ≡ ok u)
    × (u.kills ≡ t.kills + length rounds)
    × (u.gets + u.errors ≡ t.gets + t.errors + tried rounds)
