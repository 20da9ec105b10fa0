-- ===== src/Server/Directory.antt =====
-- What the control plane of src/server.rs promises its clients: a directory, which has for each
-- registered name the path of the project and the secrets that are allowed. It forgets the sockets,
-- the caches and the order of the registry.
pub mod Refinement
pub mod Enforcement
mod Examples
use remo_broker.Base.{◌≡◌, Option, none, some, List, Text, same, if◌then◌else◌, Result, ok, err}
use mathlib.Core.Option
use remo_broker.Base.Map.{lookup}
use remo_broker.Manifest.{Files, Manifest}
use remo_broker.Registry.{Project, ProjectRegistry, RegistryError, load_named}
use remo_broker.Proto
use remo_broker.Proto.{
  AdminRequest, AdminResponse, registered, done, reloaded, reported, rotated, refused,
}
use remo_broker.Server.Admin.{error_code}

pub record Entry : Type 0 where
  pub project_path : Text
  pub secrets : List Text

abbrev pub Directory : Type 0
Directory = Text → Option Entry

abbrev pub entry_of : Project → Entry
entry_of p = record { project_path = p.project_path; secrets = p.manifest.allowlist.secrets }

abbrev pub directory : ProjectRegistry → Directory
directory reg name = Option.map entry_of (lookup name reg.inner)

abbrev pub store : Text → Option Entry → Directory → Directory
store name entry dir j = if same name j then entry else dir j

-- What the manifest at a path allows.
abbrev pub offered : Text → Result RegistryError (Manifest × Text) → Option Entry
offered path (ok (m, at)) = some (record { project_path = path; secrets = m.allowlist.secrets })
offered path (err e) = none

-- The directory of who sees the requests and the answers, and can read the manifests.
unfoldable pub follow : Files → AdminRequest → AdminResponse → Directory → Directory
follow fs (Proto.register name path) (registered r) dir =
    store name (offered path (load_named fs name path)) dir
follow fs (Proto.unregister name) done dir = store name none dir
follow fs (Proto.reload name) (reloaded r) dir =
    store name (Option.map (λ (e : Entry). record e { secrets = r.allowlist }) (dir name)) dir
follow fs request answer dir = dir

-- The answers that a directory allows.
pub data Permits (fs : Files) (dir : Directory) : AdminRequest → AdminResponse → Type 0 where
  added :
      {name path : Text} {r : Proto.RegisterResponse} (m : Manifest) (at : Text)
      → load_named fs name path ≡ ok (m, at)
      → dir name ≡ none
      → Permits fs dir (Proto.register name path) (registered r)
  unreadable :
      {name path : Text} {a : Proto.AdminError} (e : RegistryError)
      → load_named fs name path ≡ err e
      → a.code ≡ error_code e
      → Permits fs dir (Proto.register name path) (refused a)
  taken :
      {name path : Text} {a : Proto.AdminError} (m : Manifest) (at : Text) (entry : Entry)
      → load_named fs name path ≡ ok (m, at)
      → dir name ≡ some entry
      → a.code ≡ Proto.project_exists
      → Permits fs dir (Proto.register name path) (refused a)
  unbound :
      {name path : Text} {a : Proto.AdminError} (m : Manifest) (at : Text)
      → load_named fs name path ≡ ok (m, at)
      → dir name ≡ none
      → a.code ≡ Proto.internal_error
      → Permits fs dir (Proto.register name path) (refused a)
  removed :
      {name : Text} (entry : Entry)
      → dir name ≡ some entry
      → Permits fs dir (Proto.unregister name) done
  not_there :
      {name : Text} {a : Proto.AdminError}
      → dir name ≡ none
      → a.code ≡ Proto.project_unknown
      → Permits fs dir (Proto.unregister name) (refused a)
  read_again :
      {name : Text} {r : Proto.ReloadResponse} (entry : Entry) (m : Manifest) (at : Text)
      → dir name ≡ some entry
      → load_named fs name entry.project_path ≡ ok (m, at)
      → r.allowlist ≡ m.allowlist.secrets
      → Permits fs dir (Proto.reload name) (reloaded r)
  unreadable_again :
      {name : Text} {a : Proto.AdminError} (entry : Entry) (e : RegistryError)
      → dir name ≡ some entry
      → load_named fs name entry.project_path ≡ err e
      → a.code ≡ error_code e
      → Permits fs dir (Proto.reload name) (refused a)
  none_to_read :
      {name : Text} {a : Proto.AdminError}
      → dir name ≡ none
      → a.code ≡ Proto.project_unknown
      → Permits fs dir (Proto.reload name) (refused a)
  status : {r : Proto.StatusResponse} → Permits fs dir Proto.status (reported r)
  renewed : {r : Proto.RotateBootstrapResponse} → Permits fs dir Proto.rotate_bootstrap (rotated r)
  not_renewed :
      {a : Proto.AdminError}
      → a.code ≡ Proto.bootstrap_error
      → Permits fs dir Proto.rotate_bootstrap (refused a)
