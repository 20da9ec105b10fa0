-- ===== src/Lib.antt =====
-- A formal model of the credential broker daemon: projects register over an admin socket, and each
-- gets a socket of its own, over which its clients fetch the secrets of its allowlist from a
-- backend, through a cache, with an audit record of every attempt.
--
-- Parts, and the code that each models:
--   Cache       src/cache.rs: `BoundedCache`, each method a function on the state that the mutex
--               guards. Eviction, Bounds, Lookup, Contents, Blank and History hold the
--               theorems.
--   Manifest    src/manifest.rs: names, limits, `validate`, `discover`, `load`.
--   Registry    src/registry.rs: `register`, `unregister`, `reload` and the binding of sockets;
--               Registry/Disk is the socket files and the system calls on them.
--   Audit       src/audit.rs: `AuditWriter::record` and `writer_loop`; Audit/Bounded is a channel
--               that meets the interface, Audit/Pipeline both ends of it at once.
--   Proto       src/proto/: requests, responses and error codes.
--   Server      src/server.rs and src/backend.rs. Server/Fetch is the data plane (`dispatch_project`,
--               `dispatch_get`, `emit_fetch`), Server/Admin the control plane (`dispatch_admin` and
--               what it calls), Server/Connection the line protocol (`read_line_capped` and the two
--               connection loops), Server/Session the backend session,
--               Server/Setup the admin socket at startup, Server/Accept the accept loops with the
--               stop signal, Server/Drain the waits at the end and their deadline, Server/Shutdown
--               the rest of the end of `Server::run`. Server/Concurrent is everything at once: the
--               gets of all connections, reloads, rotations, registrations and removals as a step
--               relation (`dispatch_get`, and `reload` of src/registry.rs). Server/Projects is the
--               register and unregister requests of all admin connections at once, with the accept
--               loops and the sockets, before the shutdown begins. Server/Directory is a specification of the control plane,
--               and Server/Typing one of the answers on a project's socket.
--   Startup     src/main.rs: from the command line to the accept loop; Startup/Tidy and
--               Startup/Lifetime go on to the end of the daemon.
--   Config      src/config.rs: `Config::load` and `Config::resolve`.
--   Bootstrap   src/bootstrap.rs: `fetch_token`; Bootstrap/Http and Bootstrap/Url are the parsers of
--               the metadata exchange.
--   Tools       examples/killtest.rs and examples/soak.rs: what the two test programs send, count and
--               judge.
--   Base        what the parts share: texts, hash maps, paths, results, time, trimming.
--
-- How they meet: a connection parses a line and hands the request to Server/Admin or Server/Fetch.
-- The control plane changes the registry, the sockets on disk, the accept loops and the backend
-- session, which are the record `Daemon`. The data plane changes the cache of a project and sends
-- to the audit channel, which are the record `Plane`. The writer task takes the events from the
-- channel. Bootstrap and Session serve the start of the daemon, which Startup puts together from
-- Config, Bootstrap, Session and Server/Setup, and the rotation of the backend session.
--
-- Choices. A text is its UTF-8 bytes, and a path is a text. A hash map is an association list;
-- where the source iterates over a map, the list's order stands for the unspecified order. Time is
-- in nanoseconds, and each clock reading is an argument. An operation under a lock is one function;
-- `dispatch_get`, `dispatch_unregister` and the shutdown, which wait, are given in parts as well.
-- In Server/Concurrent a step is one access to shared state, and the steps of different tasks come
-- in any order; so it is in Server/Projects, where a step is what happens under one lock, one
-- system call, or a move of an accept loop. In these and in Server/Accept tokio may wake any task
-- that is ready. `as u32` wraps at 2^32 and the counter of dropped events at 2^64. An error message
-- is its format string and the values that fill it.
-- A connection is the bytes of its client, and whether the client then closes its side, breaks, or
-- stays: the code waits for a client without a limit. An aborted task ends some time after its abort,
-- and the drains wait for it without a limit; so does `main` for the audit writer.
-- A secret is its text; zeroisation and redaction are not modelled.
--
-- Parameters: the file system, the environment, the network, UTF-8 decoding, `toml`, `serde_json`,
-- fnox-core and tokio's bounded channel. Faults of socket calls and of log writes are arguments; a
-- log write that fails is taken to leave nothing in the file.
--
-- Bounds: the connection loops run on fuel, one more than the bytes of the stream, and a round takes
-- a byte at least; trimming and the split into words run on the length of their text, and take a
-- byte a round too. Everything else is structural.
--
-- Not modelled: the parsing of the command line, which clap derives; the notifications to systemd
-- and the log lines; the JSON text of messages, which serde derives; the JSON schema generator and
-- the benchmark; the processes, sockets, threads and clocks of the test programs. The counter of
-- written events is a natural number.
pub mod Base
pub mod Cache
pub mod Manifest
pub mod Registry
pub mod Audit
pub mod Proto
pub mod Server
pub mod Config
pub mod Bootstrap
pub mod Startup
pub mod Tools
