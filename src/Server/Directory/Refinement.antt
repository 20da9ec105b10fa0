-- ===== src/Server/Directory/Refinement.antt =====
-- `dispatch_admin` of src/server.rs meets the specification of Server/Directory.
use remo_broker.Base.{
  ◌≡◌, refl, Text, same_iff, Result, ok, err, arith, inl, inr, Option-cases, Result-cases,
}
use remo_broker.Base.Map.{lookup, lookup-insert, lookup-remove, contains_key}
use remo_broker.Registry
use remo_broker.Registry.{
  ProjectRegistry, register, unregister, reload, load_named, insert_project, project_of,
  bind_project_socket, after_bind, after_remove,
}
use remo_broker.Registry.Disk.{Faults, Sockets, IoError, missing, other}
use remo_broker.Proto
use remo_broker.Proto.{AdminRequest}
use remo_broker.Bootstrap.{BootstrapError}
use remo_broker.Server.{Backend}
use remo_broker.Server.Session.{reopen}
use remo_broker.Server.Admin.{
  Daemon, Outside, dispatch_admin, dispatch_register, dispatch_unregister, dispatch_reload,
  dispatch_rotate_bootstrap, adopted, rebuilt, register_answer, unregister_answer, reload_answer,
  error_code,
}
use remo_broker.Server.Directory.{
  entry_of, directory, follow, Permits, added, unreadable, taken, unbound, removed, not_there,
  read_again, unreadable_again, none_to_read, status, renewed, not_renewed,
}

-- An answer that the specification permits, and a registry that is what it follows to.
record Refines (o : Outside) (request : AdminRequest) (before : ProjectRegistry)
    (answer : Proto.AdminResponse) (after : ProjectRegistry) : Type 0 where
  permitted : Permits o.files (directory before) request answer
  followed :
      (name : Text) → directory after name ≡ follow o.files request answer (directory before) name

module _ {F : Type 0} (o : Outside) (name : Text) (d : Daemon F) where
  unregister-Refines :
      let r = dispatch_unregister o name d in
      Refines o (Proto.unregister name) d.registry r.0 r.1.registry
  unfolding dispatch_unregister unregister_answer unregister follow
  unregister-Refines = elim (Option-cases (lookup name d.registry.inner)) [
    | inl q ↦
        rw (q, dispatch_unregister, unregister_answer, unregister)
          (record { permitted = not_there (rw q refl) refl; followed = λ n. refl })
    | inr (p, q) ↦
        rw (q, dispatch_unregister, unregister_answer, unregister)
          (record {
            permitted = removed (entry_of p) (rw q refl);
            followed = λ n. rw lookup-remove (ground arith);
          })
  ]

  reload-Refines :
      let r = dispatch_reload o name d in Refines o (Proto.reload name) d.registry r.0 r.1.registry
  unfolding dispatch_reload reload_answer reload follow
  reload-Refines = elim (Option-cases (lookup name d.registry.inner)) [
    | inl q ↦
        rw (q, dispatch_reload, reload_answer, reload)
          (record { permitted = none_to_read (rw q refl) refl; followed = λ n. refl })
    | inr (p, q) ↦ elim (Result-cases (load_named o.files name p.project_path)) [
      | inr (e, l) ↦
          rw (q, dispatch_reload, reload_answer, reload)
            (rw (l, dispatch_reload, reload_answer, reload)
              (record {
                permitted = unreadable_again (entry_of p) e (rw q refl) l refl;
                followed = λ n. refl;
              }))
      | inl ((m, at), l) ↦
          rw (q, dispatch_reload, reload_answer, reload)
            (rw (l, dispatch_reload, reload_answer, reload)
              (record {
                permitted = read_again (entry_of p) m at (rw q refl) l refl;
                followed = λ n. rw lookup-insert (ground (arith, same_iff name n));
              }))
    ]
  ]

after_bind-code :
    (path : Text) (r : Result IoError (Unit {0})) (s : Sockets) (faults : Faults)
    (e : Registry.RegistryError)
    → (after_bind path (r, s) faults).0 ≡ err e
    → error_code e ≡ Proto.internal_error
unfolding after_bind
after_bind-code path (err x) s faults e h = ground arith
after_bind-code path (ok _) s faults e h = ground arith

after_remove-code :
    (path : Text) (r : Result IoError (Unit {0})) (s : Sockets) (faults : Faults)
    (e : Registry.RegistryError)
    → (after_remove path (r, s) faults).0 ≡ err e
    → error_code e ≡ Proto.internal_error
unfolding after_remove
after_remove-code path (err (other x)) s faults e h = ground arith
after_remove-code path (err missing) s faults e h = after_bind-code path _ _ faults e h
after_remove-code path (ok _) s faults e h = after_bind-code path _ _ faults e h

module _ {F : Type 0} (o : Outside) (name path : Text) (d : Daemon F) where
  register-Refines :
      let r = dispatch_register o name path d in
      Refines o (Proto.register name path) d.registry r.0 r.1.registry
  unfolding dispatch_register register_answer register insert_project contains_key follow
      bind_project_socket
  register-Refines = elim (Result-cases (load_named o.files name path)) [
    | inr (e, l) ↦
        rw (l, dispatch_register, register_answer, register)
          (record { permitted = unreadable e l refl; followed = λ n. refl })
    | inl ((m, at), l) ↦
        let project = project_of d.registry name path m at in
        elim (Option-cases (lookup name d.registry.inner)) [
          | inr (p, q) ↦
              rw (l, dispatch_register, register_answer, register)
                (rw (q, insert_project, contains_key, register_answer)
                  (record {
                    permitted = taken m at (entry_of p) l (rw q refl) refl;
                    followed = λ n. refl;
                  }))
          | inl q ↦
              elim (Result-cases (bind_project_socket o.faults project.socket_path d.sockets).0) [
                | inr (e, b) ↦
                    rw (l, dispatch_register, register_answer, register)
                      (rw (q, insert_project, contains_key, register_answer)
                        (rw (b, insert_project, register_answer)
                          (record {
                            permitted = unbound m at l (rw q refl) (after_remove-code _ _ _ _ e b);
                            followed = λ n. refl;
                          })))
                | inl (x, b) ↦
                    rw (l, dispatch_register, register_answer, register)
                      (rw (q, insert_project, contains_key, register_answer)
                        (rw (b, insert_project, register_answer)
                          (record {
                            permitted = added m at l (rw q refl);
                            followed = λ n. rw (lookup-insert, l) (ground arith);
                          })))
              ]
        ]
  ]

module _ (b : Backend) (o : Outside) (d : Daemon b.Fnox) where
  rebuilt-Refines :
      (old : b.Fnox) (token : Result BootstrapError Text)
      → let r = rebuilt b old token d in
        Refines o Proto.rotate_bootstrap d.registry r.0 r.1.registry
  unfolding rebuilt adopted follow
  rebuilt-Refines old (err e) = record { permitted = not_renewed refl; followed = λ n. refl }
  rebuilt-Refines old (ok token) = elim (Result-cases (reopen b d.config.fnox_config_path)) [
    | inr (e, q) ↦ rw (q, adopted) (record { permitted = not_renewed refl; followed = λ n. refl })
    | inl (session, q) ↦ rw (q, adopted) (record { permitted = renewed; followed = λ n. refl })
  ]

  rotate-Refines :
      let r = dispatch_rotate_bootstrap b o d in
      Refines o Proto.rotate_bootstrap d.registry r.0 r.1.registry
  unfolding dispatch_rotate_bootstrap follow
  rotate-Refines = elim (Option-cases d.backend) [
    | inl q ↦
        rw (q, dispatch_rotate_bootstrap)
          (record { permitted = not_renewed refl; followed = λ n. refl })
    | inr (old, q) ↦ rw (q, dispatch_rotate_bootstrap) (rebuilt-Refines old _)
  ]

  -- The control plane refines the directory: every answer, errors included, is one that the
  -- directory permits, and the registry afterwards has the directory that the request and the
  -- answer lead to.
  pub dispatch_admin-Refines :
      (request : AdminRequest)
      → let (answer, after) = dispatch_admin b o request d in
        Permits o.files (directory d.registry) request answer
        × ((name : Text)
            → directory after.registry name
              ≡ follow o.files request answer (directory d.registry) name)
  unfolding dispatch_admin follow
  dispatch_admin-Refines Proto.status = (status, λ n. refl)
  dispatch_admin-Refines (Proto.register name path) =
      let r = register-Refines o name path d in (r.permitted, r.followed)
  dispatch_admin-Refines (Proto.unregister name) =
      let r = unregister-Refines o name d in (r.permitted, r.followed)
  dispatch_admin-Refines (Proto.reload name) =
      let r = reload-Refines o name d in (r.permitted, r.followed)
  dispatch_admin-Refines Proto.rotate_bootstrap =
      let r = rotate-Refines in (r.permitted, r.followed)
