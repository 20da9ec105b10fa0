-- ===== src/Server/Session.antt =====
-- src/backend.rs: `BackendSession`. The session is one shared cell, so it is the daemon's
-- `Option b.Fnox`, and `adopt` gives the cell what the new session holds.
use remo_broker.Base.{Option, none, some, Text, Result, map_err}
use remo_broker.Server.{Backend}

pub data BackendError : Type 0 where
  open_failed : Text → Text → BackendError
  discover_failed : Text → BackendError

module _ (b : Backend) where
  abbrev pub open_session : Text → Result BackendError b.Fnox
  open_session path = map_err (open_failed path) (b.open_at path)

  abbrev pub discover_session : Result BackendError b.Fnox
  discover_session = map_err discover_failed b.discover

  -- `adopt(&self, other)`: what `self` holds afterwards.
  abbrev pub adopt : b.Fnox → b.Fnox → b.Fnox
  adopt old new = new

  -- The session of the configuration: the file that is named, or the one that is found.
  abbrev pub reopen : Option Text → Result BackendError b.Fnox
  reopen (some path) = open_session path
  reopen none = discover_session
