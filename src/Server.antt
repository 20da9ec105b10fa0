-- ===== src/Server.antt =====
-- src/server.rs and src/backend.rs: the daemon. Its data plane is Server/Fetch, its control plane
-- Server/Admin, the line protocol Server/Connection.
pub mod Fetch
pub mod Session
pub mod Admin
pub mod Connection
pub mod Setup
pub mod Concurrent
pub mod Accept
pub mod Drain
pub mod Shutdown
pub mod Projects
pub mod Directory
mod Typing
pub mod Samples
mod Examples
use remo_broker.Base.{ℕ, Option, Text, Result}

-- `fnox_core::Fnox`, the secret backend: a session is opened from a config file or discovered, and
-- answers a name with a value, with none, or with an error's message.
pub record Backend : Type 1 where
  pub Fnox : Type 0
  pub open_at : Text → Result Text Fnox
  pub discover : Result Text Fnox
  pub get : Fnox → Text → Result Text (Option Text)

-- `stream.peer_cred()`
pub record Peer : Type 0 where
  pub pid : Option ℕ
  pub uid : Option ℕ

-- The clock readings of one `get`: when the request was read, at the cache lookup, at the cache
-- insert, at the audit record, and the wall clock there.
pub record Times : Type 0 where
  pub start : ℕ
  pub at_lookup : ℕ
  pub at_insert : ℕ
  pub at_emit : ℕ
  pub timestamp : ℕ
