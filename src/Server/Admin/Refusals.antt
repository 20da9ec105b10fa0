-- ===== src/Server/Admin/Refusals.antt =====
-- What an admin request that src/server.rs refuses leaves as it was.
use remo_broker.Base.{
  ◌≡◌, ◌≢◌, refl, sym, ap, subst, Option, none, some, Text, Result, ok, err, arith, inl, inr,
  Option-cases, Result-cases,
}
use remo_broker.Base.Map.{lookup, contains_key}
use remo_broker.Registry.{
  Project, ProjectRegistry, RegistryError, register, unregister, reload, load_named, insert_project,
  project_of, bind_project_socket, socket_path_for,
}
use remo_broker.Registry.Disk.{Sockets}
use remo_broker.Registry.Errors.{lookup-bind_project_socket_ne}
use remo_broker.Bootstrap.{BootstrapError, fetch_token}
use remo_broker.Proto
use remo_broker.Proto.{AdminRequest, AdminError, refused}
use remo_broker.Server.{Backend}
use remo_broker.Server.Session.{reopen}
use remo_broker.Server.Admin.{
  Daemon, Outside, dispatch_admin, dispatch_register, dispatch_unregister, dispatch_reload,
  dispatch_rotate_bootstrap, adopted, rebuilt, register_answer, unregister_answer, reload_answer,
}
use remo_broker.Server.Admin.Serving.{register_failed}

-- The socket that a request binds.
abbrev pub target : Text → AdminRequest → Option Text
target dir (Proto.register name path) = some (socket_path_for dir name)
target dir (Proto.unregister name) = none
target dir (Proto.reload name) = none
target dir Proto.status = none
target dir Proto.rotate_bootstrap = none

pub record IsUnchanged {F : Type 0} (request : AdminRequest) (before after : Daemon F)
    : Type 0 where
  pub registry : after.registry ≡ before.registry
  pub project_tasks : after.project_tasks ≡ before.project_tasks
  pub backend : after.backend ≡ before.backend
  pub sockets :
      (j : Text)
      → target before.registry.socket_dir request ≢ some j
      → lookup j after.sockets ≡ lookup j before.sockets

register_sockets_ne :
    (o : Outside) (reg : ProjectRegistry) (name path : Text) (s : Sockets) (j : Text)
    → socket_path_for reg.socket_dir name ≢ j
    → lookup j (register o.files o.faults reg name path s).2 ≡ lookup j s
unfolding register insert_project contains_key
register_sockets_ne o reg name path s j apart = elim (Result-cases (load_named o.files name path)) [
  | inr (e, l) ↦ rw (l, register) refl
  | inl ((m, at), l) ↦
      let project = project_of reg name path m at in
      elim (Option-cases (lookup name reg.inner)) [
        | inr (p, q) ↦ rw (l, register) (rw (q, insert_project, contains_key) refl)
        | inl q ↦
            let e = lookup-bind_project_socket_ne o.faults project.socket_path s j apart in
            elim (Result-cases (bind_project_socket o.faults project.socket_path s).0) [
              | inr (x, b) ↦
                  rw (l, register) (rw (q, insert_project, contains_key) (rw (b, insert_project) e))
              | inl (x, b) ↦
                  rw (l, register) (rw (q, insert_project, contains_key) (rw (b, insert_project) e))
            ]
      ]
]

module _ {F : Type 0} (d : Daemon F) (e : AdminError) where
  register_refused :
      (name path : Text) (t : Result RegistryError Project × ProjectRegistry × Sockets)
      → ((x : RegistryError) → t.0 ≡ err x → t.1 ≡ d.registry)
      → ((j : Text)
          → socket_path_for d.registry.socket_dir name ≢ j
          → lookup j t.2 ≡ lookup j d.sockets)
      → (register_answer name t d).0 ≡ refused e
      → IsUnchanged (Proto.register name path) d (register_answer name t d).1
  unfolding register_answer
  register_refused name path (ok p, reg, s) same_registry same_sockets h = absurd (ground arith)
  register_refused name path (err x, reg, s) same_registry same_sockets h = record {
    registry = same_registry x refl;
    project_tasks = refl;
    backend = refl;
    sockets = λ j apart. same_sockets j (λ q. apart (ap some q));
  }

  unregister_refused :
      (o : Outside) (name : Text)
      → (dispatch_unregister o name d).0 ≡ refused e
      → IsUnchanged (Proto.unregister name) d (dispatch_unregister o name d).1
  unfolding dispatch_unregister unregister_answer unregister
  unregister_refused o name h = elim (Option-cases (lookup name d.registry.inner)) [
    | inl q ↦
        rw (q, dispatch_unregister, unregister_answer, unregister)
          (record {
            registry = refl;
            project_tasks = refl;
            backend = refl;
            sockets = λ j apart. refl;
          })
    | inr (p, q) ↦ absurd (ground arith)
  ]

  reload_refused :
      (o : Outside) (name : Text)
      → (dispatch_reload o name d).0 ≡ refused e
      → IsUnchanged (Proto.reload name) d (dispatch_reload o name d).1
  unfolding dispatch_reload reload_answer reload
  reload_refused o name h = elim (Option-cases (lookup name d.registry.inner)) [
    | inl q ↦
        rw (q, dispatch_reload, reload_answer, reload)
          (record {
            registry = refl;
            project_tasks = refl;
            backend = refl;
            sockets = λ j apart. refl;
          })
    | inr (p, q) ↦ elim (Result-cases (load_named o.files name p.project_path)) [
      | inl ((m, at), l) ↦ absurd (ground arith)
      | inr (x, l) ↦
          rw (q, dispatch_reload, reload_answer, reload)
            (rw (l, dispatch_reload, reload_answer, reload)
              (record {
                registry = refl;
                project_tasks = refl;
                backend = refl;
                sockets = λ j apart. refl;
              }))
    ]
  ]

module _ (b : Backend) (o : Outside) (d : Daemon b.Fnox) (e : AdminError) where
  abbrev unchanged : IsUnchanged Proto.rotate_bootstrap d d
  unchanged = record {
    registry = refl;
    project_tasks = refl;
    backend = refl;
    sockets = λ j apart. refl;
  }

  rebuilt_refused :
      (old : b.Fnox) (token : Result BootstrapError Text)
      → (rebuilt b old token d).0 ≡ refused e
      → IsUnchanged Proto.rotate_bootstrap d (rebuilt b old token d).1
  unfolding rebuilt adopted
  rebuilt_refused old (err x) h = unchanged
  rebuilt_refused old (ok token) h = elim (Result-cases (reopen b d.config.fnox_config_path)) [
    | inr (x, q) ↦ rw (q, adopted) unchanged
    | inl (session, q) ↦ absurd (ground arith)
  ]

  rotate_refused :
      (dispatch_rotate_bootstrap b o d).0 ≡ refused e
      → IsUnchanged Proto.rotate_bootstrap d (dispatch_rotate_bootstrap b o d).1
  unfolding dispatch_rotate_bootstrap
  rotate_refused h = elim (Option-cases d.backend) [
    | inl q ↦
        let same : (dispatch_rotate_bootstrap b o d).1 ≡ d = ground arith in
        subst (IsUnchanged Proto.rotate_bootstrap d) (sym same) unchanged
    | inr (old, q) ↦
        let token = fetch_token o.world d.config.bootstrap in
        let goes : rebuilt b old token d ≡ dispatch_rotate_bootstrap b o d = ground (arith, q) in
        subst (λ r. r.0 ≡ refused e → IsUnchanged Proto.rotate_bootstrap d r.1) goes
          (rebuilt_refused old token) h
  ]

-- An admin request that is refused, whatever the reason, leaves the registry, the accept loops, the
-- backend session and all sockets as they were, but for the socket file at the path that a
-- registration was about to bind.
pub dispatch_admin-refused :
    (b : Backend) (o : Outside) (request : AdminRequest) (d : Daemon b.Fnox) (e : AdminError)
    → (dispatch_admin b o request d).0 ≡ refused e
    → IsUnchanged request d (dispatch_admin b o request d).1
unfolding dispatch_admin dispatch_register
dispatch_admin-refused b o Proto.status d e h = absurd (ground arith)
dispatch_admin-refused b o (Proto.register name path) d e h =
    register_refused d e name path _
      (register_failed o.files o.faults d.registry name path d.sockets)
      (register_sockets_ne o d.registry name path d.sockets) h
dispatch_admin-refused b o (Proto.unregister name) d e h = unregister_refused d e o name h
dispatch_admin-refused b o (Proto.reload name) d e h = reload_refused d e o name h
dispatch_admin-refused b o Proto.rotate_bootstrap d e h = rotate_refused b o d e h
