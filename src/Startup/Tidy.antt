-- ===== src/Startup/Tidy.antt =====
-- The sockets that the admin requests of src/server.rs leave on disk.
use remo_broker.Base.{
  ◌≢◌, List, [], ◌∷◌, Text, Result, ok, err, Option-cases, Result-cases, inl, inr, All,
}
use remo_broker.Base.Map.{lookup}
use remo_broker.Proto
use remo_broker.Proto.{AdminRequest}
use remo_broker.Registry.{Project, ProjectRegistry, RegistryError, register, unregister, reload}
use remo_broker.Manifest.{Manifest}
use remo_broker.Bootstrap.{BootstrapError}
use remo_broker.Server.Session.{reopen}
use remo_broker.Registry.Disk
use remo_broker.Registry.Disk.{Faults}
use remo_broker.Registry.Accounting.{
  Works, IsAccounted, register-IsAccounted, unregister-IsAccounted, reload-IsAccounted,
}
use remo_broker.Server.{Backend}
use remo_broker.Server.Admin.{
  Daemon, Outside, dispatch_admin, dispatch_register, dispatch_unregister, dispatch_reload,
  dispatch_rotate_bootstrap, rebuilt, adopted, register_answer, unregister_answer, reload_answer,
}
use remo_broker.Server.Setup.{admin_path}

-- The requests of the admin connections, in the order in which they are dispatched.
unfoldable pub administer :
    (b : Backend) → List (Outside × AdminRequest) → Daemon b.Fnox → Daemon b.Fnox
administer b [] d = d
administer b ((o, request) ∷ rest) d = administer b rest (dispatch_admin b o request d).1

-- Every socket on disk is a registered project's or the admin socket, or was there before.
abbrev pub IsTidy : {F : Type 0} → Disk.Sockets → Daemon F → Type 0
IsTidy before d =
    (j : Text)
    → admin_path d.config.socket_dir ≢ j
    → IsAccounted d.registry.inner before d.sockets j

module _ (before : Disk.Sockets) {F : Type 0} (name : Text) (d : Daemon F) where
  register_answer-IsTidy :
      (t : Result RegistryError Project × ProjectRegistry × Disk.Sockets)
      → ((j : Text) → admin_path d.config.socket_dir ≢ j → IsAccounted t.1.inner before t.2 j)
      → IsTidy before (register_answer name t d).1
  unfolding register_answer
  register_answer-IsTidy (ok p, reg, s) h = h
  register_answer-IsTidy (err e, reg, s) h = h

  unregister-IsTidy :
      (faults : Faults)
      → Works faults
      → IsTidy before d
      → IsTidy before (unregister_answer faults name (unregister d.registry name) d).1
  unfolding unregister_answer unregister
  unregister-IsTidy faults works tidy = elim (Option-cases (lookup name d.registry.inner)) [
    | inl q ↦ rw (q, unregister) tidy
    | inr (p, q) ↦
        rw (q, unregister)
          (λ j apart.
            unregister-IsAccounted faults works d.registry.inner name p before d.sockets j q
              (tidy j apart))
  ]

  reload_answer-IsTidy :
      (t : Result RegistryError Manifest × ProjectRegistry)
      → ((j : Text) → admin_path d.config.socket_dir ≢ j → IsAccounted t.1.inner before d.sockets j)
      → IsTidy before (reload_answer t d).1
  unfolding reload_answer
  reload_answer-IsTidy (ok m, reg) h = h
  reload_answer-IsTidy (err e, reg) h = h

module _ (b : Backend) (before : Disk.Sockets) where
  rebuilt-IsTidy :
      (old : b.Fnox) (r : Result BootstrapError Text) (d : Daemon b.Fnox)
      → IsTidy before d
      → IsTidy before (rebuilt b old r d).1
  unfolding rebuilt adopted
  rebuilt-IsTidy old (err e) d tidy = tidy
  rebuilt-IsTidy old (ok token) d tidy = elim (Result-cases (reopen b d.config.fnox_config_path)) [
    | inl (session, q) ↦ rw (q, adopted) tidy
    | inr (e, q) ↦ rw (q, adopted) tidy
  ]

  dispatch_admin-IsTidy :
      (o : Outside) (request : AdminRequest) (d : Daemon b.Fnox)
      → Works o.faults
      → IsTidy before d
      → IsTidy before (dispatch_admin b o request d).1
  unfolding dispatch_admin dispatch_register dispatch_unregister dispatch_reload
      dispatch_rotate_bootstrap
  dispatch_admin-IsTidy o Proto.status d works tidy = tidy
  dispatch_admin-IsTidy o (Proto.register name path) d works tidy =
      register_answer-IsTidy before name d
        (register o.files o.faults d.registry name path d.sockets)
        (λ j apart.
          register-IsAccounted o.faults works o.files d.registry name path before d.sockets j
            (tidy j apart))
  dispatch_admin-IsTidy o (Proto.unregister name) d works tidy =
      unregister-IsTidy before name d o.faults works tidy
  dispatch_admin-IsTidy o (Proto.reload name) d works tidy =
      reload_answer-IsTidy before name d (reload o.files d.registry name)
        (λ j apart. reload-IsAccounted o.files d.registry name before d.sockets j (tidy j apart))
  dispatch_admin-IsTidy o Proto.rotate_bootstrap d works tidy = elim (Option-cases d.backend) [
    | inl q ↦ rw (q, dispatch_rotate_bootstrap) tidy
    | inr (old, q) ↦ rw (q, dispatch_rotate_bootstrap) (rebuilt-IsTidy old _ d tidy)
  ]

  pub administer-IsTidy :
      (requests : List (Outside × AdminRequest)) (d : Daemon b.Fnox)
      → All (λ (o, request). Works o.faults) requests
      → IsTidy before d
      → IsTidy before (administer b requests d)
  unfolding administer
  administer-IsTidy [] d works tidy = tidy
  administer-IsTidy ((o, request) ∷ rest) d (here, there) tidy =
      administer-IsTidy rest _ there (dispatch_admin-IsTidy o request d here tidy)
