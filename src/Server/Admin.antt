-- ===== src/Server/Admin.antt =====
-- The admin requests of src/server.rs: `dispatch_admin` and what it calls. A request runs on the
-- whole daemon; the parts of `dispatch_unregister` between which it waits are functions of their
-- own.
pub mod Messages
pub mod Serving
pub mod Rotation
pub mod Removal
pub mod Status
pub mod Refusals
use remo_broker.Base.{
  ℕ, ◌-◌, Option, none, some, [], map, length, Text, codes, Result, ok, err, as_secs, as_u32,
}
use remo_broker.Base.Map
use remo_broker.Base.Map.{Map, remove, insert}
use remo_broker.Config
use remo_broker.Config.{Config, BootstrapSource}
use remo_broker.Manifest.{Manifest, Files}
use remo_broker.Registry
use remo_broker.Registry.{Project, ProjectRegistry, RegistryError, register, unregister, reload}
use remo_broker.Registry.Disk.{Sockets, Faults, remove_file}
use remo_broker.Cache
use remo_broker.Bootstrap.{World, BootstrapError, fetch_token}
use remo_broker.Proto
use remo_broker.Proto.{
  Message, AdminRequest, AdminResponse, AdminErrorCode, StatusResponse, ProjectStatus,
  BootstrapMode, error, register_response, reload_response, status_response, rotate_response,
  registered, done, reloaded, reported, rotated, refused,
}
use remo_broker.Server.{Backend}
use remo_broker.Server.Session.{BackendError, reopen, adopt}
use Messages.{nest, registry_message, bootstrap_message, session_message}

-- What an admin request meets outside the daemon: the manifests, the socket calls, the bootstrap
-- source, the clock, and the version of the build.
pub record Outside : Type 0 where
  pub files : Files
  pub faults : Faults
  pub world : World
  pub now : ℕ
  pub broker_version : Text

abbrev pub error_code : RegistryError → AdminErrorCode
error_code (Registry.project_exists name) = Proto.project_exists
error_code (Registry.project_unknown name) = Proto.project_unknown
error_code (Registry.manifest_not_found e) = Proto.manifest_not_found
error_code (Registry.manifest_invalid e) = Proto.manifest_invalid
error_code (Registry.bind_socket path e) = Proto.internal_error
error_code (Registry.socket_perms path e) = Proto.internal_error

unfoldable pub admin_error_for : RegistryError → AdminResponse
admin_error_for e = refused (error (error_code e) (registry_message e))

unfoldable pub bootstrap_mode : BootstrapSource → BootstrapMode
bootstrap_mode (BootstrapSource.file path) = BootstrapMode.file
bootstrap_mode BootstrapSource.imds = BootstrapMode.imds
bootstrap_mode BootstrapSource.env = BootstrapMode.env

abbrev pub status_of : Text × Project → ProjectStatus
status_of (_, p) = record {
  name = p.name;
  socket_path = p.socket_path;
  allowlist_size = as_u32 (length p.manifest.allowlist.secrets);
  cache_entries = as_u32 (Cache.len p.cache);
}

abbrev pub bootstrap_refused : Message → AdminResponse
bootstrap_refused m = refused (error Proto.bootstrap_error m)

abbrev pub no_session : Message
no_session = record {
  format = codes "no fnox-core session is configured; restart the daemon with --fnox-config";
  values = [];
}

-- `Server`, less the audit channel, which no admin request uses, and with the sockets on disk.
-- `project_tasks` has for each accept loop the path of the socket it listens on.
pub record Daemon (Fnox : Type 0) : Type 0 where
  pub config : Config
  pub started_at : ℕ
  pub registry : ProjectRegistry
  pub backend : Option Fnox
  pub project_tasks : Map Text
  pub sockets : Sockets

-- `Server::new`
abbrev pub new : {F : Type 0} → Config → Option F → ℕ → Sockets → Daemon F
new config backend now sockets = record {
  config = config;
  started_at = now;
  registry =
      Registry.new config.socket_dir
        (record { max_entries = config.cache_default_max_entries; ttl = config.cache_default_ttl });
  backend = backend;
  project_tasks = [];
  sockets = sockets;
}

-- The accept loop is spawned and its handle kept.
abbrev pub spawn_loop : {F : Type 0} → Text → Project → Daemon F → Daemon F
spawn_loop name project d = record d {
  project_tasks = insert name project.socket_path d.project_tasks;
}

unfoldable pub register_answer :
    {F : Type 0}
    → Text
    → Result RegistryError Project × ProjectRegistry × Sockets
    → Daemon F
    → AdminResponse × Daemon F
unfolding admin_error_for
register_answer name (ok project, registry, sockets) d = (
  registered (register_response project.socket_path),
  spawn_loop name project (record d { registry = registry; sockets = sockets }),
)
register_answer name (err e, registry, sockets) d =
    (admin_error_for e, record d { registry = registry; sockets = sockets })

unfoldable pub dispatch_register :
    {F : Type 0} → Outside → Text → Text → Daemon F → AdminResponse × Daemon F
unfolding register_answer
dispatch_register o name project_path d =
    register_answer name (register o.files o.faults d.registry name project_path d.sockets) d

-- The loop is told to stop, and is awaited; past the limit it is aborted. It has ended either way.
abbrev pub end_loop : {F : Type 0} → Text → Daemon F → Daemon F
end_loop name d = record d { project_tasks = remove name d.project_tasks }

-- A failure to remove the socket is logged and no more.
abbrev pub remove_socket : {F : Type 0} → Faults → Project → Daemon F → Daemon F
remove_socket faults project d = record d {
  sockets = (remove_file faults project.socket_path d.sockets).1;
}

unfoldable pub unregister_answer :
    {F : Type 0}
    → Faults
    → Text
    → Result RegistryError Project × ProjectRegistry
    → Daemon F
    → AdminResponse × Daemon F
unfolding admin_error_for
unregister_answer faults name (ok project, registry) d =
    (done, remove_socket faults project (end_loop name (record d { registry = registry })))
unregister_answer faults name (err e, registry) d =
    (admin_error_for e, record d { registry = registry })

unfoldable pub dispatch_unregister :
    {F : Type 0} → Outside → Text → Daemon F → AdminResponse × Daemon F
unfolding unregister_answer
dispatch_unregister o name d = unregister_answer o.faults name (unregister d.registry name) d

unfoldable pub reload_answer :
    {F : Type 0}
    → Result RegistryError Manifest × ProjectRegistry
    → Daemon F
    → AdminResponse × Daemon F
unfolding admin_error_for
reload_answer (ok manifest, registry) d =
    (reloaded (reload_response manifest.allowlist.secrets), record d { registry = registry })
reload_answer (err e, registry) d = (admin_error_for e, record d { registry = registry })

unfoldable pub dispatch_reload : {F : Type 0} → Outside → Text → Daemon F → AdminResponse × Daemon F
unfolding reload_answer
dispatch_reload o name d = reload_answer (reload o.files d.registry name) d

unfoldable pub dispatch_status : {F : Type 0} → Outside → Daemon F → StatusResponse
unfolding bootstrap_mode
dispatch_status o d =
    status_response o.broker_version (as_secs (o.now - d.started_at))
      (bootstrap_mode d.config.bootstrap) (map status_of d.registry.inner)

module _ (b : Backend) where
  -- The session is swapped last, where the token is there and the new session is open.
  unfoldable pub adopted :
      b.Fnox → Result BackendError b.Fnox → Daemon b.Fnox → AdminResponse × Daemon b.Fnox
  adopted old (err e) d = (
    bootstrap_refused (nest (codes "failed to rebuild fnox-core session: ") (session_message e)),
    d,
  )
  adopted old (ok session) d =
      (rotated rotate_response, record d { backend = some (adopt b old session) })

  unfoldable pub rebuilt :
      b.Fnox → Result BootstrapError Text → Daemon b.Fnox → AdminResponse × Daemon b.Fnox
  unfolding adopted
  rebuilt old (err e) d =
      (bootstrap_refused (nest (codes "bootstrap token unavailable: ") (bootstrap_message e)), d)
  rebuilt old (ok token) d = adopted old (reopen b d.config.fnox_config_path) d

  unfoldable pub dispatch_rotate_bootstrap : Outside → Daemon b.Fnox → AdminResponse × Daemon b.Fnox
  unfolding rebuilt
  dispatch_rotate_bootstrap o d = elim d.backend [
    | none ↦ (bootstrap_refused no_session, d)
    | some old ↦ rebuilt old (fetch_token o.world d.config.bootstrap) d
  ]

  unfoldable pub dispatch_admin :
      Outside → AdminRequest → Daemon b.Fnox → AdminResponse × Daemon b.Fnox
  unfolding dispatch_register dispatch_unregister dispatch_reload dispatch_status
      dispatch_rotate_bootstrap
  dispatch_admin o Proto.status d = (reported (dispatch_status o d), d)
  dispatch_admin o (Proto.register name project_path) d = dispatch_register o name project_path d
  dispatch_admin o (Proto.unregister name) d = dispatch_unregister o name d
  dispatch_admin o (Proto.reload name) d = dispatch_reload o name d
  dispatch_admin o Proto.rotate_bootstrap d = dispatch_rotate_bootstrap o d
