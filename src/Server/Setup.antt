-- ===== src/Server/Setup.antt =====
-- The setup of `Server::run` in src/server.rs: `ensure_socket_dir` and `bind_admin_socket`.
pub mod AdminSocket
mod Examples
use remo_broker.Base.{ℕ, Text, codes, Result, ok, err, map_err}
use remo_broker.Base.Paths.{join}
use remo_broker.Registry.Disk.{
  Sockets, Faults, IoError, missing, remove_file, bind, set_permissions,
}

abbrev pub admin_socket_name : Text
admin_socket_name = codes "admin.sock"

abbrev pub admin_socket_mode : ℕ
admin_socket_mode = 0o600

pub data ServerError : Type 0 where
  create_socket_dir bind_admin admin_socket_perms : Text → IoError → ServerError
  signal_handler : IoError → ServerError

-- `create_dir_all` may fail; that the mode could not be set is ignored.
unfoldable pub ensure_socket_dir :
    (Text → Result IoError (Unit {0})) → Text → Result ServerError Text
ensure_socket_dir create_dir_all path = elim (create_dir_all path) [
  | ok _ ↦ ok path
  | err e ↦ err (create_socket_dir path e)
]

unfoldable pub admin_bound :
    Text → Result IoError (Unit {0}) × Sockets → Faults → Result ServerError (Unit {0}) × Sockets
admin_bound path (err e, s) faults = (err (bind_admin path e), s)
admin_bound path (ok _, s) faults =
    let (r, s') = set_permissions faults path admin_socket_mode s in
    (map_err (admin_socket_perms path) r, s')

-- A stale file is removed first; that there is none is no error.
unfoldable pub admin_cleared :
    Text → Result IoError (Unit {0}) × Sockets → Faults → Result ServerError (Unit {0}) × Sockets
unfolding admin_bound
admin_cleared path (ok _, s) faults = admin_bound path (bind faults path s) faults
admin_cleared path (err missing, s) faults = admin_bound path (bind faults path s) faults
admin_cleared path (err e, s) faults = (err (bind_admin path e), s)

unfoldable pub bind_admin_socket : Faults → Text → Sockets → Result ServerError (Unit {0}) × Sockets
unfolding admin_cleared
bind_admin_socket faults path s = admin_cleared path (remove_file faults path s) faults

-- Where `Server::run` binds the admin socket.
unfoldable pub admin_path : Text → Text
admin_path socket_dir = join socket_dir admin_socket_name
