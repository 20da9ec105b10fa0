-- ===== src/Server/Shutdown/Sockets.antt =====
-- What is left on disk by the shutdown of src/server.rs.
use remo_broker.Base.{
  ℕ, ◌≡◌, refl, none, some, [], ◌∷◌, Text, same, same_refl, arith, Bool-cases, inl, inr,
}
use remo_broker.Base.Map.{Map, lookup, contains_key, lookup-remove}
use remo_broker.Registry.{Project}
use remo_broker.Registry.Disk
use remo_broker.Registry.Disk.{Faults, remove_file}
use remo_broker.Audit.{Channel, AuditWriter}
use remo_broker.Server.Admin.{Daemon}
use remo_broker.Server.Setup.{admin_path}
use remo_broker.Server.Shutdown.{
  shut_down, shutdown_begun, shutdown_ended, remove_registered_sockets, remove_admin_socket,
  drain_project_loops, remove_project_sockets,
}

module _ (faults : Faults) (works : (path : Text) → faults.remove_fault path ≡ none) where
  pub lookup-remove_file :
      (path : Text) (s : Disk.Sockets) → lookup path (remove_file faults path s).1 ≡ none
  unfolding remove_file contains_key
  lookup-remove_file path s = ground (arith, works path, lookup-remove path path s, same_refl path)

  pub remove_file-absent :
      (path j : Text) (s : Disk.Sockets)
      → lookup j s ≡ none
      → lookup j (remove_file faults path s).1 ≡ none
  unfolding remove_file contains_key
  remove_file-absent path j s gone = ground (arith, works path, lookup-remove path j s)

  pub remove_project_sockets-absent :
      (m : Map Project) (j : Text) (s : Disk.Sockets)
      → lookup j s ≡ none
      → lookup j (remove_project_sockets faults m s) ≡ none
  unfolding remove_project_sockets
  remove_project_sockets-absent [] j s gone = gone
  remove_project_sockets-absent ((k, p) ∷ m) j s gone =
      remove_project_sockets-absent m j _ (remove_file-absent p.socket_path j s gone)

  lookup-remove_project_sockets :
      (m : Map Project) (name : Text) (p : Project) (s : Disk.Sockets)
      → lookup name m ≡ some p
      → lookup p.socket_path (remove_project_sockets faults m s) ≡ none
  unfolding remove_project_sockets lookup
  lookup-remove_project_sockets [] name p s at = cc
  lookup-remove_project_sockets ((k, q) ∷ m) name p s at = elim (Bool-cases (same k name)) [
    | inl here ↦
        let e : q ≡ p = ground arith in
        remove_project_sockets-absent m p.socket_path _ (rw e (lookup-remove_file p.socket_path s))
    | inr there ↦
        lookup-remove_project_sockets m name p (remove_file faults q.socket_path s).1 (ground arith)
  ]

  -- Where socket files can be removed, a shutdown leaves no accept loop, and neither the admin
  -- socket nor the socket of any registered project is left on disk.
  pub shut_down_sound :
      {F : Type 0} (c : Channel) (timestamp : ℕ) (d : Daemon F) (w : AuditWriter c.Tx)
      → let after = (shut_down c faults timestamp d w).0 in
        (after.project_tasks ≡ [])
        × (lookup (admin_path d.config.socket_dir) after.sockets ≡ none)
        × ((name : Text) (p : Project)
            → lookup name d.registry.inner ≡ some p
            → lookup p.socket_path after.sockets ≡ none)
  unfolding shut_down shutdown_begun shutdown_ended remove_registered_sockets remove_admin_socket
      drain_project_loops
  shut_down_sound c timestamp d w = (
    refl,
    lookup-remove_file (admin_path d.config.socket_dir) _,
    λ name p at.
        remove_file-absent (admin_path d.config.socket_dir) p.socket_path _
          (lookup-remove_project_sockets d.registry.inner name p d.sockets at),
  )
