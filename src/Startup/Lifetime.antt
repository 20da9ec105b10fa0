-- ===== src/Startup/Lifetime.antt =====
-- The daemon from src/main.rs to the end of `Server::run` of src/server.rs: it starts, serves admin
-- requests one after the other, and shuts down.
use remo_broker.Base.{
  ℕ, ◌≡◌, ◌≢◌, ◌∙◌, subst, true, false, Bool, ◌||◌, none, List, [], ◌∷◌, Text, same, same_iff, ok,
  Bool-cases, Result-cases, inl, inr, All, arith,
}
use remo_broker.Base.Map.{Map, lookup, insert, contains_key, lookup-insert, lookup-remove, remove}
use remo_broker.Proto.{AdminRequest}
use remo_broker.Audit.{Channel, AuditWriter}
use remo_broker.Registry.{Project}
use remo_broker.Registry.Disk
use remo_broker.Registry.Disk.{Faults, remove_file, bind, set_permissions}
use remo_broker.Registry.Accounting.{Works, IsFree, remove_file_clears}
use remo_broker.Server.{Backend}
use remo_broker.Server.Admin.{Daemon, Outside, new}
use remo_broker.Server.Setup.{
  admin_path, bind_admin_socket, admin_bound, admin_cleared, ensure_socket_dir,
}
use remo_broker.Server.Shutdown.{
  shut_down, shutdown_begun, shutdown_ended, remove_registered_sockets, remove_admin_socket,
  drain_project_loops, remove_project_sockets,
}
use remo_broker.Server.Shutdown.Sockets.{remove_file-absent, remove_project_sockets-absent}
use remo_broker.Startup.{Cli, Host, start, prepare, run}
use remo_broker.Startup.Soundness.{start_runs}
use remo_broker.Startup.Tidy.{administer, IsTidy, administer-IsTidy}

abbrev is_socket : Text → Map Project → Bool
is_socket j [] = false
is_socket j ((k, p) ∷ m) = same p.socket_path j || is_socket j m

is_socket-IsFree : (m : Map Project) (j : Text) → is_socket j m ≡ false → IsFree m j
unfolding lookup
is_socket-IsFree [] j h name p at e = absurd (ground arith)
is_socket-IsFree ((k, q) ∷ m) j h name p at e = elim (Bool-cases (same k name)) [
  | inl here ↦ ground (arith, same_iff p.socket_path j)
  | inr there ↦ is_socket-IsFree m j (ground arith) name p (ground arith) e
]

-- The binding of the admin socket leaves every other file as it was.
lookup-bind_admin_socket_ne :
    (faults : Faults) (path : Text) (s : Disk.Sockets) (j : Text)
    → path ≢ j
    → lookup j (bind_admin_socket faults path s).1 ≡ lookup j s
unfolding bind_admin_socket admin_cleared admin_bound remove_file bind set_permissions contains_key
lookup-bind_admin_socket_ne faults path s j apart = ground (
  arith,
  same_iff path j,
  lookup-remove path j s,
  lookup-insert path j faults.bind_mode s,
  lookup-insert path j faults.bind_mode (remove path s),
  lookup-insert path j 0o600 (insert path faults.bind_mode s),
  lookup-insert path j 0o600 (insert path faults.bind_mode (remove path s)),
)

run-IsTidy : {F : Type 0} (host : Host) (d : Daemon F) → IsTidy d.sockets (run host d).1
unfolding run ensure_socket_dir
run-IsTidy host d = elim (Result-cases (host.create_dir_all d.config.socket_dir)) [
  | inr (e, q) ↦ rw (q, run, ensure_socket_dir) (λ j apart free clear. clear)
  | inl (_, q) ↦
      rw (q, run, ensure_socket_dir)
        (λ j apart free clear.
          lookup-bind_admin_socket_ne host.faults (admin_path d.config.socket_dir) d.sockets j apart
          ∙ clear)
]

started-IsTidy :
    (b : Backend) (host : Host) (cli : Cli) (now : ℕ) (s : Disk.Sockets) (d : Daemon b.Fnox)
    → (start b host cli now s).0 ≡ ok d
    → IsTidy s d
unfolding start
started-IsTidy b host cli now s d h = elim (Result-cases (prepare b host cli)) [
  | inr (e, q) ↦ absurd (ground arith)
  | inl ((config, session), q) ↦
      subst (IsTidy s) (start_runs b host cli now s d config session q h).1
        (run-IsTidy host (new config session now s))
]

module _ (faults : Faults) (works : Works faults) where
  remove_project_sockets-clears :
      (m : Map Project) (j : Text) (s : Disk.Sockets)
      → is_socket j m ≡ true
      → lookup j (remove_project_sockets faults m s) ≡ none
  unfolding remove_project_sockets
  remove_project_sockets-clears [] j s h = cc
  remove_project_sockets-clears ((k, p) ∷ m) j s h = elim (Bool-cases (same p.socket_path j)) [
    | inl here ↦ remove_project_sockets-absent faults works.removes m j _ (
        subst (λ path. lookup path (remove_file faults p.socket_path s).1 ≡ none)
          ((same_iff p.socket_path j).0 here) (remove_file_clears faults works p.socket_path s))
    | inr there ↦ remove_project_sockets-clears m j _ (ground arith)
  ]

  shut_down-clears :
      {F : Type 0} (c : Channel) (timestamp : ℕ) (before : Disk.Sockets) (d : Daemon F)
      (w : AuditWriter c.Tx) (j : Text)
      → IsTidy before d
      → lookup j before ≡ none
      → lookup j (shut_down c faults timestamp d w).0.sockets ≡ none
  unfolding shut_down shutdown_begun shutdown_ended remove_registered_sockets remove_admin_socket
      drain_project_loops
  shut_down-clears c timestamp before d w j tidy clear =
      let path = admin_path d.config.socket_dir in
      elim (Bool-cases (same path j)) [
        | inl here ↦
            subst
              (λ k. lookup k (remove_admin_socket faults (shutdown_begun faults d)).sockets ≡ none)
              ((same_iff path j).0 here) (remove_file_clears faults works path _)
        | inr there ↦
            let apart : path ≢ j = λ e. ground (arith, same_iff path j) in
            remove_file-absent faults works.removes path j _
              (elim (Bool-cases (is_socket j d.registry.inner)) [
                | inl registered ↦
                    remove_project_sockets-clears d.registry.inner j d.sockets registered
                | inr free ↦
                    remove_project_sockets-absent faults works.removes d.registry.inner j d.sockets
                      (tidy j apart (is_socket-IsFree d.registry.inner j free) clear)
              ])
      ]

-- The daemon leaves no socket behind: when it has started, has answered any admin requests, and
-- has shut down, every path that was clear before it started is clear again, where the calls to
-- remove a socket file and to set its mode do not fail.
pub no_socket_left :
    (b : Backend) (host : Host) (cli : Cli) (now : ℕ) (s : Disk.Sockets) (d : Daemon b.Fnox)
    (requests : List (Outside × AdminRequest)) (faults : Faults) (c : Channel) (timestamp : ℕ)
    (w : AuditWriter c.Tx) (j : Text)
    → (start b host cli now s).0 ≡ ok d
    → All (λ (o, request). Works o.faults) requests
    → Works faults
    → lookup j s ≡ none
    → lookup j (shut_down c faults timestamp (administer b requests d) w).0.sockets ≡ none
no_socket_left b host cli now s d requests faults c timestamp w j started work works clear =
    shut_down-clears faults works c timestamp s (administer b requests d) w j
      (administer-IsTidy b s requests d work (started-IsTidy b host cli now s d started)) clear
