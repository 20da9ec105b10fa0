-- ===== src/Server/Shutdown/Late.antt =====
-- A registration on an admin connection that is still open while src/server.rs shuts down.
use remo_broker.Base.{◌≡◌, ◌≢◌, refl, ◌∙◌, ℕ, some, Text, same_refl, ok}
use remo_broker.Base.Map.{lookup, lookup-insert}
use remo_broker.Registry.{Project, register}
use remo_broker.Registry.Disk.{Faults}
use remo_broker.Registry.Errors.{lookup-remove_file_ne}
use remo_broker.Registry.Effects.{register_sound}
use remo_broker.Audit.{Channel, AuditWriter}
use remo_broker.Server.Admin.{Daemon, Outside, dispatch_register, register_answer}
use remo_broker.Server.Setup.{admin_path}
use remo_broker.Server.Shutdown.{shutdown_begun, shutdown_ended, remove_admin_socket}

ended_late :
    {F : Type 0} (o : Outside) (name path : Text) (c : Channel) (faults : Faults) (timestamp : ℕ)
    (d : Daemon F) (w : AuditWriter c.Tx) (new : Project)
    → (register o.files o.faults d.registry name path d.sockets).0 ≡ ok new
    → admin_path d.config.socket_dir ≢ new.socket_path
    → let last = (shutdown_ended c faults timestamp (dispatch_register o name path d).1 w).0 in
      (lookup name last.project_tasks ≡ some new.socket_path)
      × (lookup new.socket_path last.sockets ≡ some 0o660)
unfolding shutdown_ended remove_admin_socket dispatch_register register_answer
ended_late o name path c faults timestamp d w new h apart =
    let (_, added) = register_sound o.files o.faults d.registry name path new d.sockets h in
    rw (h, register_answer)
      (
        rw (lookup-insert, same_refl name) refl,
        lookup-remove_file_ne faults (admin_path d.config.socket_dir) _ new.socket_path apart
            ∙ added.socket,
      )

-- While the shutdown waits for the admin connections, one of them may register a project: where
-- that succeeds, the shutdown ends with the new project's accept loop running and its socket on
-- disk, unless it is the admin socket's path.
pub register_outlives :
    {F : Type 0} (o : Outside) (name path : Text) (c : Channel) (faults : Faults) (timestamp : ℕ)
    (d : Daemon F) (w : AuditWriter c.Tx) (new : Project)
    → let begun = shutdown_begun faults d in
      (register o.files o.faults begun.registry name path begun.sockets).0 ≡ ok new
      → admin_path begun.config.socket_dir ≢ new.socket_path
      → let last =
          (shutdown_ended c faults timestamp (dispatch_register o name path begun).1 w).0 in
        (lookup name last.project_tasks ≡ some new.socket_path)
        × (lookup new.socket_path last.sockets ≡ some 0o660)
register_outlives o name path c faults timestamp d w new h apart =
    ended_late o name path c faults timestamp (shutdown_begun faults d) w new h apart
