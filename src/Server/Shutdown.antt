-- ===== src/Server/Shutdown.antt =====
-- The end of `Server::run` in src/server.rs, after the signal: the project loops, the sockets and
-- the last audit event. That the connections have ended by then, by themselves or aborted at the
-- deadline, is the drain's doing.
pub mod Sockets
pub mod Late
use remo_broker.Base.{ℕ, [], ◌∷◌, codes}
use remo_broker.Base.Map.{Map}
use remo_broker.Registry.{Project}
use remo_broker.Registry.Disk
use remo_broker.Registry.Disk.{Faults, remove_file}
use remo_broker.Audit.{Channel, AuditWriter, shutdown, record_event}
use remo_broker.Server.Admin.{Daemon}
use remo_broker.Server.Setup.{admin_path}

-- Every loop is told to stop, and is awaited or aborted.
unfoldable pub drain_project_loops : {F : Type 0} → Daemon F → Daemon F
drain_project_loops d = record d { project_tasks = [] }

-- `for project in registry.snapshot()`: a failure is logged and no more.
unfoldable pub remove_project_sockets : Faults → Map Project → Disk.Sockets → Disk.Sockets
remove_project_sockets faults [] s = s
remove_project_sockets faults ((name, p) ∷ m) s =
    remove_project_sockets faults m (remove_file faults p.socket_path s).1

unfoldable pub remove_registered_sockets : {F : Type 0} → Faults → Daemon F → Daemon F
unfolding remove_project_sockets
remove_registered_sockets faults d = record d {
  sockets = remove_project_sockets faults d.registry.inner d.sockets;
}

-- A failure is logged and no more.
unfoldable pub remove_admin_socket : {F : Type 0} → Faults → Daemon F → Daemon F
remove_admin_socket faults d = record d {
  sockets = (remove_file faults (admin_path d.config.socket_dir) d.sockets).1;
}

-- Up to the wait for the admin connections, which are served until then.
unfoldable pub shutdown_begun : {F : Type 0} → Faults → Daemon F → Daemon F
unfolding drain_project_loops remove_registered_sockets
shutdown_begun faults d = remove_registered_sockets faults (drain_project_loops d)

-- `shutdown_audit`; the buffered events are the writer task's and are given as none.
unfoldable pub shutdown_audit : (c : Channel) → ℕ → AuditWriter c.Tx → AuditWriter c.Tx
shutdown_audit c timestamp w =
    record_event c
      (shutdown (record {
        timestamp = timestamp;
        reason = codes "sigterm";
        events_dropped = w.dropped;
        events_in_degraded_buffer = 0;
      }))
      w

-- From the end of that wait on.
unfoldable pub shutdown_ended :
    {F : Type 0}
    → (c : Channel) → Faults
    → ℕ
    → Daemon F
    → AuditWriter c.Tx
    → Daemon F × AuditWriter c.Tx
unfolding remove_admin_socket shutdown_audit
shutdown_ended c faults timestamp d w = (remove_admin_socket faults d, shutdown_audit c timestamp w)

-- The whole, with no admin request during the wait.
unfoldable pub shut_down :
    {F : Type 0}
    → (c : Channel) → Faults
    → ℕ
    → Daemon F
    → AuditWriter c.Tx
    → Daemon F × AuditWriter c.Tx
unfolding shutdown_begun shutdown_ended
shut_down c faults timestamp d w = shutdown_ended c faults timestamp (shutdown_begun faults d) w
