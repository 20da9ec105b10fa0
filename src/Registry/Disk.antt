-- ===== src/Registry/Disk.antt =====
-- The socket files on disk with their modes, and the three system calls that src/registry.rs and
-- src/server.rs make on them. A call may fail for a reason of its own: `Faults` says where.
use remo_broker.Base.{ℕ, Option, none, some, Text, codes, if◌then◌else◌, Result, ok, err}
use remo_broker.Base.Map.{Map, remove, insert, contains_key}

-- A path and the mode of the socket there.
abbrev pub Sockets : Type 0
Sockets = Map ℕ

-- `ErrorKind::NotFound`, or any other error with its message.
pub data IoError : Type 0 where
  missing : IoError
  other : Text → IoError

pub record Faults : Type 0 where
  pub remove_fault : Text → Option Text
  pub bind_fault : Text → Option Text
  pub chmod_fault : Text → Option Text
  -- the mode that the umask leaves a new socket
  pub bind_mode : ℕ

-- `std::fs::remove_file`
unfoldable pub remove_file : Faults → Text → Sockets → Result IoError (Unit {0}) × Sockets
remove_file faults path s = elim (faults.remove_fault path) [
  | some e ↦ (err (other e), s)
  | none ↦ if contains_key path s then (ok tt, remove path s) else (err missing, s)
]

-- `UnixListener::bind`: it makes the file, and refuses a path that is taken.
unfoldable pub bind : Faults → Text → Sockets → Result IoError (Unit {0}) × Sockets
bind faults path s = elim (faults.bind_fault path) [
  | some e ↦ (err (other e), s)
  | none ↦
      if contains_key path s
      then (err (other (codes "address in use")), s)
      else (ok tt, insert path faults.bind_mode s)
]

-- `std::fs::set_permissions`
unfoldable pub set_permissions : Faults → Text → ℕ → Sockets → Result IoError (Unit {0}) × Sockets
set_permissions faults path mode s = elim (faults.chmod_fault path) [
  | some e ↦ (err (other e), s)
  | none ↦ if contains_key path s then (ok tt, insert path mode s) else (err missing, s)
]
