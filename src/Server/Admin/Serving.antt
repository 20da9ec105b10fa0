-- ===== src/Server/Admin/Serving.antt =====
-- The daemon's registry, its accept loops and the sockets on disk, under the admin requests of
-- src/server.rs.
use mathlib.Core.Option
use remo_broker.Base.{
  ◌≡◌, ◌≢◌, refl, ◌∙◌, subst, some, Text, same, same_iff, Result, ok, err, Option-cases,
  Result-cases, Bool-cases, inl, inr, arith,
}
use remo_broker.Base.Map.{
  lookup, insert, remove, lookup-insert, lookup-remove, remove-IsUnique, contains_key,
}
use remo_broker.Manifest.{Files}
use remo_broker.Registry.{
  Project, ProjectRegistry, RegistryError, register, unregister, reload, reloaded, load_named,
  bind_project_socket, insert_project, project_of, socket_path_for,
}
use remo_broker.Registry.Disk.{Sockets, Faults, remove_file}
use remo_broker.Registry.Errors.{lookup-remove_file_ne}
use remo_broker.Registry.Invariant.{IsConsistent, register-IsConsistent, reload-IsConsistent}
use remo_broker.Registry.Names.{socket_path_for_injective}
use remo_broker.Registry.Effects.{IsAdded, register_sound}
use remo_broker.Proto
use remo_broker.Proto.{AdminRequest}
use remo_broker.Server.{Backend}
use remo_broker.Server.Session.{reopen}
use remo_broker.Bootstrap.{BootstrapError}
use remo_broker.Server.Admin.{
  Daemon, Outside, dispatch_admin, dispatch_register, dispatch_unregister, dispatch_reload,
  dispatch_rotate_bootstrap, adopted, rebuilt, register_answer, unregister_answer, reload_answer,
}

abbrev socket_of : Project → Text
socket_of p = p.socket_path

-- Every registered project has its accept loop, on its own socket, and there is no other loop;
-- the sockets of the registered projects are on disk.
pub record IsServing {F : Type 0} (d : Daemon F) : Type 0 where
  pub consistent : IsConsistent d.registry d.sockets
  pub loops :
      (name : Text)
      → lookup name d.project_tasks ≡ Option.map socket_of (lookup name d.registry.inner)

pub register_failed :
    (fs : Files) (faults : Faults) (reg : ProjectRegistry) (name path : Text) (s : Sockets)
    (e : RegistryError)
    → (register fs faults reg name path s).0 ≡ err e
    → (register fs faults reg name path s).1 ≡ reg
unfolding register insert_project contains_key
register_failed fs faults reg name path s e h = elim (Result-cases (load_named fs name path)) [
  | inr (x, q) ↦ ground arith
  | inl ((m, at), q) ↦
      let project = project_of reg name path m at in
      elim (Option-cases (lookup project.name reg.inner)) [
        | inr (old, t) ↦ ground arith
        | inl t ↦ elim (Result-cases (bind_project_socket faults project.socket_path s).0) [
          | inr (x, b) ↦ ground arith
          | inl (_, b) ↦ absurd (ground arith)
        ]
      ]
]

pub unregister-IsConsistent :
    (faults : Faults) (reg : ProjectRegistry) (name : Text) (p : Project) (s : Sockets)
    → lookup name reg.inner ≡ some p
    → IsConsistent reg s
    → IsConsistent
        (record reg { inner = remove name reg.inner })
        (remove_file faults p.socket_path s).1
unregister-IsConsistent faults reg name p s at c = record {
  unique = remove-IsUnique name reg.inner c.unique;
  entries = λ j q there.
      let apart : name ≢ j = λ e. ground (arith, lookup-remove name j reg.inner, same_iff name j) in
      let kept : lookup j reg.inner ≡ some q =
        ground (arith, lookup-remove name j reg.inner, same_iff name j) in
      let old = c.entries j q kept in
      let gone = c.entries name p at in
      record {
        named = old.named;
        safe = old.safe;
        manifest_named = old.manifest_named;
        at_path = old.at_path;
        mode = rw gone.at_path (
            lookup-remove_file_ne faults (socket_path_for reg.socket_dir name) s
              (socket_path_for reg.socket_dir j)
              (λ e. apart (socket_path_for_injective reg.socket_dir name j gone.safe old.safe e))
            ∙ old.mode);
      };
}

record IsAnswer (before after : ProjectRegistry) (s : Sockets) (name : Text)
    (r : Result RegistryError Project) : Type 0 where
  consistent : IsConsistent after s
  failed : (e : RegistryError) → r ≡ err e → after ≡ before
  added : (p : Project) → r ≡ ok p → (p.name ≡ name) × IsAdded before after s p

register-IsAnswer :
    (fs : Files) (faults : Faults) (reg : ProjectRegistry) (name path : Text) (s : Sockets)
    → IsConsistent reg s
    → let r = register fs faults reg name path s in IsAnswer reg r.1 r.2 name r.0
register-IsAnswer fs faults reg name path s c = record {
  consistent = register-IsConsistent fs faults reg name path s c;
  failed = λ e q. register_failed fs faults reg name path s e q;
  added = λ p q. register_sound fs faults reg name path p s q;
}

module _ {F : Type 0} (name : Text) (d : Daemon F) (v : IsServing d) where
  register_answer-IsServing :
      (t : Result RegistryError Project × ProjectRegistry × Sockets)
      → IsAnswer d.registry t.1 t.2 name t.0
      → IsServing (register_answer name t d).1
  unfolding register_answer
  register_answer-IsServing (err e, reg, s) a = record {
    consistent = a.consistent;
    loops = λ j. rw (a.failed e refl) (v.loops j);
  }
  register_answer-IsServing (ok p, reg, s) a =
      let (named, added) = a.added p refl in
      record {
        consistent = a.consistent;
        loops = λ j. rw lookup-insert (elim (Bool-cases (same name j)) [
          | inl here ↦
              let at : lookup j reg.inner ≡ some p =
                subst (λ k. lookup k reg.inner ≡ some p) (named ∙ (same_iff name j).0 here)
                  added.is_now in
              rw (here, at) refl
          | inr there ↦
              let old : lookup j reg.inner ≡ lookup j d.registry.inner =
                added.others j (λ e. ground (arith, same_iff name j)) in
              rw (there, old) (v.loops j)
        ]);
      }

  unregister-IsServing :
      (faults : Faults) → IsServing (unregister_answer faults name (unregister d.registry name) d).1
  unfolding unregister_answer unregister
  unregister-IsServing faults = elim (Option-cases (lookup name d.registry.inner)) [
    | inl q ↦ rw (q, unregister_answer, unregister) v
    | inr (p, q) ↦
        rw (q, unregister_answer, unregister)
          (record {
            consistent = unregister-IsConsistent faults d.registry name p d.sockets q v.consistent;
            loops = λ j. ground (
              arith,
              lookup-remove name j d.project_tasks,
              lookup-remove name j d.registry.inner,
              v.loops j,
            );
          })
  ]

  reload-IsServing : (fs : Files) → IsServing (reload_answer (reload fs d.registry name) d).1
  unfolding reload_answer reload
  reload-IsServing fs =
      let c = reload-IsConsistent fs d.registry name d.sockets v.consistent in
      elim (Option-cases (lookup name d.registry.inner)) [
        | inl q ↦ rw (q, reload_answer, reload) v
        | inr (p, q) ↦ elim (Result-cases (load_named fs name p.project_path)) [
          | inr (e, l) ↦ rw (q, reload_answer, reload) (rw (l, reload_answer, reload) v)
          | inl ((m, path), l) ↦
              let e : reload fs d.registry name ≡ (
                ok m,
                record d.registry {
                  inner = insert name (reloaded d.registry p m) d.registry.inner;
                },
              ) =
                ground arith in
              let c' = subst (λ x. IsConsistent x.1 d.sockets) e c in
              rw (q, reload_answer, reload)
                (rw (l, reload_answer, reload)
                  (record {
                    consistent = c';
                    loops = λ j. ground (
                      arith,
                      lookup-insert name j (reloaded d.registry p m) d.registry.inner,
                      v.loops j,
                      same_iff name j,
                    );
                  }))
        ]
      ]

rebuilt-IsServing :
    (b : Backend) (old : b.Fnox) (d : Daemon b.Fnox) (token : Result BootstrapError Text)
    → IsServing d
    → IsServing (rebuilt b old token d).1
unfolding rebuilt adopted
rebuilt-IsServing b old d (err e) v = v
rebuilt-IsServing b old d (ok token) v = elim (Result-cases (reopen b d.config.fnox_config_path)) [
  | inr (e, q) ↦ rw (q, adopted) v
  | inl (session, q) ↦ rw (q, adopted) (record { consistent = v.consistent; loops = v.loops })
]

rotated-IsServing :
    (b : Backend) (o : Outside) (d : Daemon b.Fnox)
    → IsServing d
    → IsServing (dispatch_rotate_bootstrap b o d).1
unfolding dispatch_rotate_bootstrap
rotated-IsServing b o d v = elim (Option-cases d.backend) [
  | inl q ↦ rw (q, dispatch_rotate_bootstrap) v
  | inr (old, q) ↦ rw (q, dispatch_rotate_bootstrap) (rebuilt-IsServing b old d _ v)
]

-- Every admin request, whether it succeeds or fails, keeps the registry, the accept loops and the
-- sockets in step: each registered project has a loop and a socket of mode 0660 of its own, and
-- no loop is left without a project.
pub dispatch_admin-IsServing :
    (b : Backend) (o : Outside) (request : AdminRequest) (d : Daemon b.Fnox)
    → IsServing d
    → IsServing (dispatch_admin b o request d).1
unfolding dispatch_admin dispatch_register dispatch_unregister dispatch_reload
dispatch_admin-IsServing b o Proto.status d v = v
dispatch_admin-IsServing b o (Proto.register name path) d v =
    register_answer-IsServing name d v _
      (register-IsAnswer o.files o.faults d.registry name path d.sockets v.consistent)
dispatch_admin-IsServing b o (Proto.unregister name) d v = unregister-IsServing name d v o.faults
dispatch_admin-IsServing b o (Proto.reload name) d v = reload-IsServing name d v o.files
dispatch_admin-IsServing b o Proto.rotate_bootstrap d v = rotated-IsServing b o d v
