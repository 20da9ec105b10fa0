-- ===== src/Registry/Invariant.antt =====
-- The invariant of the registry of src/registry.rs. Of a registered project it says: its name is
-- safe as a file name, its manifest and socket path are those of its name, and its socket is on
-- disk with mode 0660.

use remo_broker.Base.{
  ◌≡◌, ◌≢◌, refl, ap, ◌∙◌, subst, none, some, arith, Text, same, same_iff, Bool-cases, Option-cases,
  Result-cases, inl, inr, Result, ok,
}
use remo_broker.Base.Map.{
  Map, lookup, insert, contains_key, IsUnique, lookup-insert, insert-IsUnique,
}
use remo_broker.Manifest.{Files}
use remo_broker.Manifest.Names.{IsProjectName}
use remo_broker.Registry
use remo_broker.Registry.{
  CacheDefaults, Project, ProjectRegistry, RegistryError, load_named, bind_project_socket, register,
  reload, reloaded, insert_project, project_of, socket_path_for,
}
use remo_broker.Registry.Disk.{Sockets, Faults}
use remo_broker.Registry.Errors.{lookup-bind_project_socket_ne, bind_project_socket-ok}
use remo_broker.Registry.Names.{socket_path_for_injective, load_named_sound}

-- The entry of one name.
pub record IsRegistered (dir : Text) (s : Sockets) (name : Text) (p : Project) : Type 0 where
  pub named : p.name ≡ name
  pub safe : IsProjectName name
  pub manifest_named : p.manifest.project.name ≡ name
  pub at_path : p.socket_path ≡ socket_path_for dir name
  pub mode : lookup (socket_path_for dir name) s ≡ some 0o660

pub record IsConsistent (reg : ProjectRegistry) (s : Sockets) : Type 0 where
  pub unique : IsUnique reg.inner
  pub entries :
      (name : Text) (p : Project)
      → lookup name reg.inner ≡ some p
      → IsRegistered reg.socket_dir s name p

-- The socket of another name is out of the way of a bind.
bind-IsRegistered :
    (faults : Faults) (dir : Text) (s : Sockets) (name j : Text) (p : Project)
    → IsProjectName name
    → name ≢ j
    → IsRegistered dir s j p
    → IsRegistered dir (bind_project_socket faults (socket_path_for dir name) s).1 j p
bind-IsRegistered faults dir s name j p safe apart r = record {
  named = r.named;
  safe = r.safe;
  manifest_named = r.manifest_named;
  at_path = r.at_path;
  mode =
      lookup-bind_project_socket_ne faults (socket_path_for dir name) s (socket_path_for dir j)
        (λ e. apart (socket_path_for_injective dir name j safe r.safe e))
      ∙ r.mode;
}

ne_of_absent :
    (m : Map Project) {name j : Text} {p : Project}
    → lookup name m ≡ none
    → lookup j m ≡ some p
    → name ≢ j
ne_of_absent m absent at e = cc (absent, at, ap (λ k. lookup k m) e)

-- A new project, with the path and the name that `register` gives it.
record IsFresh (reg : ProjectRegistry) (project : Project) : Type 0 where
  safe : IsProjectName project.name
  named : project.manifest.project.name ≡ project.name
  at_path : project.socket_path ≡ socket_path_for reg.socket_dir project.name
  absent : lookup project.name reg.inner ≡ none

module _ (faults : Faults) (reg : ProjectRegistry) (project : Project) (s : Sockets) where
  abbrev bound : Result RegistryError (Unit {0}) × Sockets
  bound = bind_project_socket faults project.socket_path s

  -- Whatever comes of the bind, the projects that are there are as they were.
  bind-IsConsistent : IsFresh reg project → IsConsistent reg s → IsConsistent reg bound.1
  bind-IsConsistent f c = record {
    unique = c.unique;
    entries = λ j p at. rw f.at_path (
        bind-IsRegistered faults reg.socket_dir s project.name j p f.safe
          (ne_of_absent reg.inner f.absent at) (c.entries j p at));
  }

  added-IsRegistered :
      IsFresh reg project
      → bound.0 ≡ ok tt
      → IsRegistered reg.socket_dir bound.1 project.name project
  added-IsRegistered f h = record {
    named = refl;
    safe = f.safe;
    manifest_named = f.named;
    at_path = f.at_path;
    mode =
        subst (λ path. lookup path bound.1 ≡ some 0o660) f.at_path
          (bind_project_socket-ok faults project.socket_path s h);
  }

insert-IsConsistent :
    (reg : ProjectRegistry) (s : Sockets) (name : Text) (project : Project)
    → IsRegistered reg.socket_dir s name project
    → IsConsistent reg s
    → IsConsistent (record reg { inner = insert name project reg.inner }) s
insert-IsConsistent reg s name project r c = record {
  unique = insert-IsUnique name project reg.inner c.unique;
  entries = λ j p at. elim (Bool-cases (same name j)) [
    | inl here ↦
        let e : name ≡ j = (same_iff name j).0 here in
        let q : project ≡ p = ground (arith, lookup-insert name j project reg.inner) in
        subst (λ x. IsRegistered reg.socket_dir s x p) e
          (subst (IsRegistered reg.socket_dir s name) q r)
    | inr there ↦ c.entries j p (ground (arith, lookup-insert name j project reg.inner))
  ];
}

insert_project-IsConsistent :
    (faults : Faults) (reg : ProjectRegistry) (project : Project) (s : Sockets)
    → IsProjectName project.name
    → project.manifest.project.name ≡ project.name
    → project.socket_path ≡ socket_path_for reg.socket_dir project.name
    → IsConsistent reg s
    → let r = insert_project faults reg project s in IsConsistent r.1 r.2
unfolding insert_project contains_key
insert_project-IsConsistent faults reg project s safe named path c =
    elim (Option-cases (lookup project.name reg.inner)) [
      | inr (p, q) ↦ rw (q, insert_project, contains_key) c
      | inl q ↦
          let f : IsFresh reg project = record {
            safe = safe;
            named = named;
            at_path = path;
            absent = q;
          } in
          let kept = bind-IsConsistent faults reg project s f c in
          elim (Result-cases (bind_project_socket faults project.socket_path s).0) [
            | inr (e, b) ↦ rw (q, b, insert_project, contains_key) kept
            | inl (_, b) ↦
                rw (q, b, insert_project, contains_key)
                  (insert-IsConsistent reg _ project.name project
                    (added-IsRegistered faults reg project s f (ground arith)) kept)
          ]
    ]

-- Registration, whether it succeeds or fails, keeps every project's name, manifest name, socket path
-- and socket of mode 0660 as they have to be, and every name in the registry once.
pub register-IsConsistent :
    (fs : Files) (faults : Faults) (reg : ProjectRegistry) (name project_path : Text) (s : Sockets)
    → IsConsistent reg s
    → let r = register fs faults reg name project_path s in IsConsistent r.1 r.2
unfolding register
register-IsConsistent fs faults reg name project_path s c =
    elim (Result-cases (load_named fs name project_path)) [
      | inr (e, q) ↦ rw (q, register) c
      | inl ((m, path), q) ↦
          let sound = load_named_sound fs name project_path path m q in
          rw (q, register)
            (insert_project-IsConsistent faults reg (project_of reg name project_path m path) s
              sound.1 sound.0 refl c)
    ]

-- So does a reload, which changes one project's manifest and cache bounds and no socket.
pub reload-IsConsistent :
    (fs : Files) (reg : ProjectRegistry) (name : Text) (s : Sockets)
    → IsConsistent reg s
    → IsConsistent (reload fs reg name).1 s
unfolding reload
reload-IsConsistent fs reg name s c = elim (Option-cases (lookup name reg.inner)) [
  | inl q ↦ rw (q, reload) c
  | inr (p, q) ↦ elim (Result-cases (load_named fs name p.project_path)) [
    | inr (e, l) ↦ rw (q, reload) (rw (l, reload) c)
    | inl ((m, path), l) ↦
        let r = c.entries name p q in
        let sound = load_named_sound fs name p.project_path path m l in
        rw (q, reload)
          (rw (l, reload)
            (insert-IsConsistent reg s name (reloaded reg p m)
              (record {
                named = r.named;
                safe = r.safe;
                manifest_named = sound.0;
                at_path = r.at_path;
                mode = r.mode;
              })
              c))
  ]
]

-- The registry of a daemon that has just started.
pub new-IsConsistent :
    (socket_dir : Text) (defaults : CacheDefaults) (s : Sockets)
    → IsConsistent (Registry.new socket_dir defaults) s
new-IsConsistent socket_dir defaults s = record {
  unique = tt;
  entries = λ name p at. unfold lookup in absurd (unfold lookup in cc);
}
