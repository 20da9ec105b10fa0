-- ===== src/Startup.antt =====
-- src/main.rs: the start of the daemon, from the command line to a bound admin socket. The parsing
-- of the command line is clap's, and gives the path of the configuration file and the overrides.
pub mod Soundness
pub mod Tidy
pub mod Lifetime
mod Examples
use remo_broker.Base.{ℕ, Option, none, some, Text, Result, ok, err, map_err, ◌>>=◌, ◌>>◌}
use remo_broker.Config.{Config, ConfigError, Layer, Reading, load}
use remo_broker.Bootstrap.{World, BootstrapError, fetch_token}
use remo_broker.Registry.Disk.{Sockets, Faults, IoError}
use remo_broker.Server.{Backend}
use remo_broker.Server.Session.{BackendError, open_session, discover_session}
use remo_broker.Server.Admin.{Daemon, new}
use remo_broker.Server.Setup.{
  ServerError, signal_handler, ensure_socket_dir, bind_admin_socket, admin_path,
}

-- The fields of `Cli`; its other fields are those of `Overrides`.
pub record Cli : Type 0 where
  pub config : Option Text
  pub overrides : Layer

-- What the process finds outside itself.
pub record Host : Type 0 where
  pub read : Text → Reading
  pub parse_toml : Text → Result Text Layer
  pub world : World
  pub create_dir_all : Text → Result IoError (Unit {0})
  pub faults : Faults
  pub signal_handlers : Result IoError (Unit {0})

-- The `anyhow::Error` that `main` returns.
pub data StartError : Type 0 where
  config_failed : ConfigError → StartError
  bootstrap_failed : BootstrapError → StartError
  backend_failed : BackendError → StartError
  server_failed : ServerError → StartError

-- `install_sigterm`, after the admin socket is bound.
abbrev pub armed : Host → Result ServerError (Unit {0}) → Result ServerError (Unit {0})
armed host bound = do bound; map_err signal_handler host.signal_handlers

-- `Server::run`, up to its accept loop.
unfoldable pub run : {F : Type 0} → Host → Daemon F → Result ServerError (Unit {0}) × Daemon F
run host d = elim (ensure_socket_dir host.create_dir_all d.config.socket_dir) [
  | err e ↦ (err e, d)
  | ok dir ↦
      let (bound, sockets) = bind_admin_socket host.faults (admin_path dir) d.sockets in
      (armed host bound, record d { sockets = sockets })
]

module _ (b : Backend) where
  -- A file that is named has to open; a session that cannot be found is none.
  unfoldable pub first_session : Option Text → Result BackendError (Option b.Fnox)
  first_session (some path) = elim (open_session b path) [
    | ok fnox ↦ ok (some fnox)
    | err e ↦ err e
  ]
  first_session none = elim (discover_session b) [ ok fnox ↦ ok (some fnox) | err e ↦ ok none ]

  -- The token is fetched to see that there is one, and is dropped.
  unfoldable pub prepare : Host → Cli → Result StartError (Config × Option b.Fnox)
  unfolding first_session
  prepare host cli = do
    config ← map_err config_failed (load host.read host.parse_toml cli.config cli.overrides)
    map_err bootstrap_failed (fetch_token host.world config.bootstrap)
    backend ← map_err backend_failed (first_session config.fnox_config_path)
    ok (config, backend)

  -- `main`, up to the accept loop: the daemon that then serves, or why there is none, with the
  -- sockets on disk.
  unfoldable pub start : Host → Cli → ℕ → Sockets → Result StartError (Daemon b.Fnox) × Sockets
  unfolding prepare run
  start host cli now s = elim (prepare host cli) [
    | err e ↦ (err e, s)
    | ok (config, backend) ↦
        let (done, d) = run host (new config backend now s) in
        (elim done [ ok _ ↦ ok d | err e ↦ err (server_failed e) ], d.sockets)
  ]
