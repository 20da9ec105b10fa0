-- ===== src/Tools/Examples.antt =====
-- The properties of the test programs at concrete inputs.
use remo_broker.Base.{
  ◌≡◌, refl, true, false, some, [], ◌∷◌, codes, arith, All, List, Bool, Text, same,
}
use remo_broker.Tools.Killtest.{file, dir, special, end, entry, Round, Totals}
use remo_broker.Tools.Soak.{Worker, join_all, failures}
use remo_broker.Tools.Soak.Floor.{IsWell, nothing, gets_all, failures_sound}

-- A log, the file that the daemon reads, and a socket.
abbrev round : Round
round = record {
  spawns = true;
  admin_connects = true;
  project_connects = true;
  register_reply = some (codes "{\"ok\":true}");
  answered = true ∷ false ∷ [];
  sandbox = entry (file (codes "/s/fnox.toml") (some (codes "value = tripwire-S0-DO-NOT-LEAK"))) (
      entry (dir (entry special end))
        (entry (file (codes "/s/audit.log") (some (codes "{}"))) end));
  audit_log = some (codes "{}");
}

abbrev is_json : Text → Bool
is_json line = same line (codes "{}")

abbrev zeros : Totals
zeros = record { kills = 0; gets = 0; errors = 0 }

abbrev seven : List Bool
seven = true ∷ true ∷ true ∷ true ∷ true ∷ true ∷ true ∷ []

abbrev workers : List Worker
workers =
    record { results = seven; panicked = false } ∷ record { results = seven; panicked = false } ∷ []

seven-IsWell : IsWell (record { results = seven; panicked = false })
seven-IsWell = record {
  answered = (refl, (refl, (refl, (refl, (refl, (refl, (refl, tt)))))));
  enough = omega arith;
  calm = refl;
}

workers-IsWell : All IsWell workers
workers-IsWell = (seven-IsWell, (seven-IsWell, tt))

failures_sound_example : failures (join_all workers nothing) 40 60 10 ≡ []
unfolding gets_all
failures_sound_example = failures_sound workers 40 60 10 workers-IsWell (omega arith) (omega arith)
