-- ===== src/Server/Samples.antt =====
-- A backend, a plane and a daemon: for the examples.
use mathlib.Core.Option
use remo_broker.Base.{
  ℕ, ◌≡◌, refl, true, none, some, [], ◌∷◌, codes, Text, ok, same, from_secs, if◌then◌else◌,
  Bool-cases, inl, inr,
}
use remo_broker.Base.Map.{lookup}
use remo_broker.Config.{Config, BootstrapSource}
use remo_broker.Audit.Bounded.{bounded}
use remo_broker.Bootstrap.{content, not_present, timed_out}
use remo_broker.Registry.{Project}
use remo_broker.Registry.Samples.{
  alpha, disk, no_faults, registered, bound, project, registered-IsConsistent,
}
use remo_broker.Server.{Backend, Peer, Times}
use remo_broker.Server.Fetch.{Plane}
use remo_broker.Server.Admin.{Daemon, Outside}
use remo_broker.Server.Admin.Serving.{IsServing}

-- Every session answers `FOO` with its number as a value.
abbrev pub numbered : Backend
numbered = record {
  Fnox = ℕ;
  open_at = λ path. ok 2;
  discover = ok 3;
  get = λ fnox name. if same name (codes "FOO") then ok (some (fnox ∷ [])) else ok none;
}

abbrev pub peer : Peer
peer = record { pid = some 7; uid = some 1_000 }

abbrev pub at_second : ℕ → Times
at_second n = record {
  start = from_secs n;
  at_lookup = from_secs n;
  at_insert = from_secs n;
  at_emit = from_secs n;
  timestamp = n;
}

abbrev pub plane : Plane bounded
plane = record { project = project; audit = record { tx = []; dropped = 0 } }

abbrev pub config : Config
config = record {
  bootstrap = BootstrapSource.file (codes "/t");
  socket_dir = codes "/run";
  audit_log_path = codes "/a";
  cache_default_ttl = from_secs 900;
  cache_default_max_entries = 32;
  backend_fetch_timeout = from_secs 5;
  fnox_config_path = none;
}

abbrev pub outside : Outside
outside = record {
  files = disk;
  faults = no_faults;
  world = record {
    read_file = λ p. content (codes "tok");
    env_var = λ v. not_present;
    exchange = λ host port timeout request. timed_out;
    utf8 = record { is_utf8 = λ s. true; lossy = λ s. s };
  };
  now = from_secs 10;
  broker_version = codes "0.1.0";
}

-- The daemon with one project registered.
abbrev pub daemon : Daemon ℕ
daemon = record {
  config = config;
  started_at = 0;
  registry = registered;
  backend = some 1;
  project_tasks = (alpha, project.socket_path) ∷ [];
  sockets = bound;
}

loops_agree :
    (name : Text)
    → lookup name daemon.project_tasks
      ≡ Option.map (λ (p : Project). p.socket_path) (lookup name daemon.registry.inner)
unfolding lookup
loops_agree name = elim (Bool-cases (same alpha name)) [
  | inl here ↦ rw (here, lookup) refl
  | inr there ↦ rw (there, lookup) refl
]

pub daemon-IsServing : IsServing daemon
daemon-IsServing = record { consistent = registered-IsConsistent; loops = λ name. loops_agree name }
