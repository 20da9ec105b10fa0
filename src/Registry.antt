-- ===== src/Registry.antt =====
-- src/registry.rs: the projects by name, and their sockets.
-- The registry is one map behind a lock, so an operation is one function from the map (and the
-- sockets on disk) to the next.
pub mod Disk
pub mod Accounting
pub mod Errors
pub mod Names
pub mod Invariant
pub mod Effects
pub mod Samples
mod Examples
use remo_broker.Base.{
  ℕ, Option, none, some, [], ◌++◌, Text, codes, same, if◌then◌else◌, Result, ok, err, map_err,
  ensure, ◌>>=◌, ◌>>◌, unwrap_or, from_secs,
}
use mathlib.Core.Option
use remo_broker.Base.Map
use remo_broker.Base.Map.{Map, lookup, remove, insert, contains_key}
use remo_broker.Base.Paths.{join}
use remo_broker.Cache
use remo_broker.Cache.{BoundedCache, set_config}
use remo_broker.Manifest.{Manifest, ManifestError, Files, not_found, name_dir_mismatch, load}
use Disk.{Sockets, Faults, IoError, missing, remove_file, bind, set_permissions}

abbrev pub project_socket_mode : ℕ
project_socket_mode = 0o660

pub data RegistryError : Type 0 where
  project_exists : Text → RegistryError
  project_unknown : Text → RegistryError
  manifest_not_found : ManifestError → RegistryError
  manifest_invalid : ManifestError → RegistryError
  bind_socket : Text → IoError → RegistryError
  socket_perms : Text → IoError → RegistryError

-- The `stop` signal belongs to the accept loop, which Server/Admin keeps.
pub record Project : Type 0 where
  pub name : Text
  pub project_path : Text
  pub socket_path : Text
  pub manifest_path : Text
  pub manifest : Manifest
  pub cache : BoundedCache

pub record CacheDefaults : Type 0 where
  pub max_entries : ℕ
  pub ttl : ℕ

pub record ProjectRegistry : Type 0 where
  pub socket_dir : Text
  pub cache_defaults : CacheDefaults
  pub inner : Map Project

abbrev pub new : Text → CacheDefaults → ProjectRegistry
new socket_dir cache_defaults = record {
  socket_dir = socket_dir;
  cache_defaults = cache_defaults;
  inner = [];
}

unfoldable pub socket_path_for : Text → Text → Text
socket_path_for socket_dir name = join socket_dir (name ++ codes ".sock")

unfoldable pub resolve_cache_bounds : Manifest → CacheDefaults → ℕ × ℕ
resolve_cache_bounds manifest defaults = (
  unwrap_or defaults.max_entries manifest.cache.max_entries,
  unwrap_or defaults.ttl (Option.map from_secs manifest.cache.ttl_seconds),
)

abbrev pub load_error : ManifestError → RegistryError
load_error (not_found path) = manifest_not_found (not_found path)
load_error e = manifest_invalid e

unfoldable pub load_manifest : Files → Text → Result RegistryError (Manifest × Text)
load_manifest fs project_path = map_err load_error (load fs project_path)

-- A stale file is removed first; that there is none is no error.
unfoldable pub after_bind :
    Text → Result IoError (Unit {0}) × Sockets → Faults → Result RegistryError (Unit {0}) × Sockets
after_bind path (err e, s) faults = (err (bind_socket path e), s)
after_bind path (ok _, s) faults =
    let (r, s') = set_permissions faults path project_socket_mode s in
    (map_err (socket_perms path) r, s')

unfoldable pub after_remove :
    Text → Result IoError (Unit {0}) × Sockets → Faults → Result RegistryError (Unit {0}) × Sockets
unfolding after_bind
after_remove path (ok _, s) faults = after_bind path (bind faults path s) faults
after_remove path (err missing, s) faults = after_bind path (bind faults path s) faults
after_remove path (err e, s) faults = (err (bind_socket path e), s)

unfoldable pub bind_project_socket :
    Faults → Text → Sockets → Result RegistryError (Unit {0}) × Sockets
unfolding after_remove
bind_project_socket faults path s = after_remove path (remove_file faults path s) faults

-- What stands under the write lock once the socket is bound.
abbrev pub project_of : ProjectRegistry → Text → Text → Manifest → Text → Project
project_of reg name project_path manifest manifest_path =
    let (cache_max, cache_ttl) = resolve_cache_bounds manifest reg.cache_defaults in
    record {
      name = name;
      project_path = project_path;
      socket_path = socket_path_for reg.socket_dir name;
      manifest_path = manifest_path;
      manifest = manifest;
      cache = Cache.new cache_max cache_ttl;
    }

-- Under the write lock: the socket is bound only for a name that is not taken.
unfoldable pub insert_project :
    Faults
    → ProjectRegistry
    → Project
    → Sockets
    → Result RegistryError Project × ProjectRegistry × Sockets
insert_project faults reg project s =
    if contains_key project.name reg.inner
    then (err (project_exists project.name), reg, s)
    else let (bound, s') = bind_project_socket faults project.socket_path s in
      elim bound [
        | err e ↦ (err e, reg, s')
        | ok _ ↦ (ok project, record reg { inner = insert project.name project reg.inner }, s')
      ]

-- The manifest is read, and its name compared, before the lock is taken.
unfoldable pub load_named : Files → Text → Text → Result RegistryError (Manifest × Text)
load_named fs name project_path = do
  loaded ← load_manifest fs project_path
  let manifest = loaded.0
  ensure (same manifest.project.name name)
      (manifest_invalid (name_dir_mismatch manifest.project.name name))
  ok loaded

unfoldable pub register :
    Files
    → Faults
    → ProjectRegistry
    → Text
    → Text
    → Sockets
    → Result RegistryError Project × ProjectRegistry × Sockets
register fs faults reg name project_path s = elim (load_named fs name project_path) [
  | err e ↦ (err e, reg, s)
  | ok (manifest, path) ↦
      insert_project faults reg (project_of reg name project_path manifest path) s
]

unfoldable pub unregister : ProjectRegistry → Text → Result RegistryError Project × ProjectRegistry
unregister reg name = elim (lookup name reg.inner) [
  | none ↦ (err (project_unknown name), reg)
  | some project ↦ (ok project, record reg { inner = remove name reg.inner })
]

-- The cache's bounds are set before the manifest is swapped.
abbrev pub reloaded : ProjectRegistry → Project → Manifest → Project
reloaded reg project manifest =
    let (cache_max, cache_ttl) = resolve_cache_bounds manifest reg.cache_defaults in
    record project { cache = set_config cache_max cache_ttl project.cache; manifest = manifest }

unfoldable pub reload :
    Files → ProjectRegistry → Text → Result RegistryError Manifest × ProjectRegistry
reload fs reg name = elim (lookup name reg.inner) [
  | none ↦ (err (project_unknown name), reg)
  | some project ↦ elim (load_named fs name project.project_path) [
    | err e ↦ (err e, reg)
    | ok (manifest, _) ↦
        (ok manifest, record reg { inner = insert name (reloaded reg project manifest) reg.inner })
  ]
]
