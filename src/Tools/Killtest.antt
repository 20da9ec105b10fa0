-- ===== src/Tools/Killtest.antt =====
-- examples/killtest.rs: rounds in which the daemon is killed under load, and what is looked for
-- afterwards. The files under the sandbox are a tree, and `serde_json` is a parameter.
mod Texts
pub mod Leaks
pub mod Soundness
use remo_broker.Base.{
  ℕ, suc, ◌+◌, Bool, true, false, ◌||◌, Option, none, some, List, [], ◌∷◌, ◌++◌, Text, codes,
  contains, is_empty, starts_with, if◌then◌else◌, Result, ok, err,
}
use remo_broker.Bootstrap.Http.{lines}

-- The secrets of the test, each with its value.
abbrev pub tripwire_values : List (Text × Text)
tripwire_values =
    (codes "S0", codes "tripwire-S0-DO-NOT-LEAK")
    ∷ (codes "S1", codes "tripwire-S1-DO-NOT-LEAK")
    ∷ (codes "S2", codes "tripwire-S2-DO-NOT-LEAK")
    ∷ []

-- What a directory holds. The text of a file is there if `read_to_string` gives one.
mutual
  pub data Node : Type 0 where
    file : Text → Option Text → Node
    dir : Entries → Node
    -- a directory that cannot be read, a socket, and what else is neither directory nor file
    special : Node

  pub data Entries : Type 0 where
    end : Entries
    entry : Node → Entries → Entries

-- `walk`: the files, in the order in which they are met.
unfoldable mutual
  pub walk : Node → List (Text × Option Text)
  walk (file path content) = (path, content) ∷ []
  walk (dir entries) = walk_all entries
  walk special = []

  pub walk_all : Entries → List (Text × Option Text)
  walk_all end = []
  walk_all (entry n rest) = walk n ++ walk_all rest

-- `str::contains`
unfoldable pub has : Text → Text → Bool
has [] value = is_empty value
has (c ∷ s) value = starts_with (c ∷ s) value || has s value

-- The first of the values that is in the text.
unfoldable pub first_value : List (Text × Text) → Text → Option Text
first_value [] content = none
first_value ((name, value) ∷ rest) content =
    if has content value then some value else first_value rest content

abbrev pub or_else {ℓ} : {A : Type ℓ} → Option A → Option A → Option A
or_else (some a) b = some a
or_else none b = b

abbrev pub with_path : Text → Option Text → Option (Text × Text)
with_path path none = none
with_path path (some value) = some (path, value)

-- What one file shows.
unfoldable pub hit_in : List Text → Text × Option Text → Option (Text × Text)
unfolding first_value
hit_in excluded (path, none) = none
hit_in excluded (path, some content) =
    if contains excluded path then none else with_path path (first_value tripwire_values content)

unfoldable pub first_hit : List Text → List (Text × Option Text) → Option (Text × Text)
unfolding hit_in
first_hit excluded [] = none
first_hit excluded (f ∷ files) = or_else (hit_in excluded f) (first_hit excluded files)

unfoldable pub grep_tripwires_under : Entries → List Text → Option (Text × Text)
unfolding walk first_hit
grep_tripwires_under root excluded = first_hit excluded (walk_all root)

-- The number of the first line that is neither empty nor JSON: the panic of
-- `assert_audit_log_parseable`.
unfoldable pub bad_line : (Text → Bool) → ℕ → List Text → Option ℕ
bad_line is_json i [] = none
bad_line is_json i (line ∷ rest) =
    if is_empty line || is_json line then bad_line is_json (i + 1) rest else some (i + 1)

unfoldable pub audit_log_panic : (Text → Bool) → Option Text → Option ℕ
unfolding bad_line
audit_log_panic is_json none = none
audit_log_panic is_json (some content) = bad_line is_json 0 (lines content)

-- What the machine does in one round: whether the daemon starts and takes the registration, which of
-- the gets were answered, and what is in the sandbox once the daemon is dead.
pub record Round : Type 0 where
  pub spawns : Bool
  -- whether the socket takes a connection within its time limit
  pub admin_connects : Bool
  pub project_connects : Bool
  -- the answer to the registration, if one is read
  pub register_reply : Option Text
  pub answered : List Bool
  pub sandbox : Entries
  pub audit_log : Option Text

pub record Totals : Type 0 where
  pub kills : ℕ
  pub gets : ℕ
  pub errors : ℕ

pub data Panic : Type 0 where
  leak : Text → Text → Panic
  torn : ℕ → Panic
  no_daemon admin_unreachable not_registered project_unreachable : Panic

-- `gets_this_round`
unfoldable pub count : Bool → List Bool → ℕ
count b [] = 0
count true (true ∷ rest) = suc (count true rest)
count true (false ∷ rest) = count true rest
count false (true ∷ rest) = count false rest
count false (false ∷ rest) = suc (count false rest)

unfoldable pub after_round : Round → Totals → Totals
unfolding count
after_round r t = record {
  kills = t.kills + 1;
  gets = t.gets + count true r.answered;
  errors = t.errors + count false r.answered;
}

-- `register_project`
unfoldable pub register_panic : Option Text → Option Panic
unfolding has
register_panic none = some not_registered
register_panic (some resp) = if has resp (codes "\"ok\":true") then none else some not_registered

-- From `spawn_daemon` to the second `wait_for_socket`.
unfoldable pub start_panic : Round → Option Panic
unfolding register_panic
start_panic r =
    if r.spawns
    then (if r.admin_connects
        then or_else (register_panic r.register_reply)
            (if r.project_connects then none else some project_unreachable)
        else some admin_unreachable)
    else some no_daemon

-- What is looked for once the daemon is dead.
unfoldable pub aftermath : (Text → Bool) → List Text → Round → Option Panic
unfolding grep_tripwires_under audit_log_panic
aftermath is_json excluded r = elim (grep_tripwires_under r.sandbox excluded) [
  | some (path, value) ↦ some (leak path value)
  | none ↦ elim (audit_log_panic is_json r.audit_log) [ some line ↦ some (torn line) | none ↦ none ]
]

unfoldable pub judge : (Text → Bool) → List Text → Round → Option Panic
unfolding start_panic aftermath
judge is_json excluded r = or_else (start_panic r) (aftermath is_json excluded r)

-- The loop of `main`: a panic ends the program.
unfoldable pub run : (Text → Bool) → List Text → List Round → Totals → Result Panic Totals
unfolding judge after_round
run is_json excluded [] t = ok t
run is_json excluded (r ∷ rest) t =
    let next = run is_json excluded rest (after_round r t) in
    elim (judge is_json excluded r) [ some p ↦ err p | none ↦ next ]
