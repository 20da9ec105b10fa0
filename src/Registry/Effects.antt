-- ===== src/Registry/Effects.antt =====
-- What the operations of src/registry.rs that succeed have done to the registry and the sockets.
use remo_broker.Base.{
  ℕ, ◌≡◌, ◌<◌, refl, none, some, [], Text, from_secs, unwrap_or, arith, ok, Option-cases,
  Result-cases, inl, inr,
}
use mathlib.Core.Option
use remo_broker.Base.Map.{lookup, lookup-insert, insert}
use remo_broker.Base.{same_refl, same_iff, subst}
use remo_broker.Base.Map.{contains_key}
use remo_broker.Registry.Errors.{bind_project_socket-ok}
use remo_broker.Manifest.{Manifest, Files}
use remo_broker.Registry.{
  Project, ProjectRegistry, resolve_cache_bounds, reload, reloaded, load_named, register,
  insert_project, project_of, socket_path_for, bind_project_socket,
}
use remo_broker.Cache.{set_config}
use remo_broker.Registry.Disk.{Sockets, Faults}

-- The default is not a ceiling: after a reload of a registered project whose manifest, loaded
-- without an error, asks for more cache entries than the daemon's default, the project is still
-- registered and the bound of its cache is above the default.
pub reload_raises_bound :
    (fs : Files) (reg : ProjectRegistry) (name path : Text) (p : Project) (m : Manifest) (n : ℕ)
    → lookup name reg.inner ≡ some p
    → load_named fs name p.project_path ≡ ok (m, path)
    → m.cache.max_entries ≡ some n
    → reg.cache_defaults.max_entries < n
    → (q : Project) × (lookup name (reload fs reg name).1.inner ≡ some q)
      × (reg.cache_defaults.max_entries < q.cache.max_entries)
unfolding reload resolve_cache_bounds set_config
reload_raises_bound fs reg name path p m n at loaded asks above = (
  reloaded reg p m,
  ground (arith, at, loaded, lookup-insert name name (reloaded reg p m) reg.inner, same_refl name),
  ground arith,
)

-- What a reload that succeeds has done.
pub record IsReloaded (before after : ProjectRegistry) (name : Text) (m : Manifest) : Type 0 where
  pub old : Project
  pub new : Project
  pub was : lookup name before.inner ≡ some old
  pub is_now : lookup name after.inner ≡ some new
  pub manifest : new.manifest ≡ m
  pub kept : new.cache.map ≡ old.cache.map
  pub max_entries :
      new.cache.max_entries ≡ unwrap_or before.cache_defaults.max_entries m.cache.max_entries
  pub ttl :
      new.cache.default_ttl
      ≡ unwrap_or before.cache_defaults.ttl (Option.map from_secs m.cache.ttl_seconds)
  pub others : (j : Text) → ¬ (name ≡ j) → lookup j after.inner ≡ lookup j before.inner

-- A reload that succeeds gives the project the new manifest and its cache the new limits, keeps
-- what the cache holds, and leaves every other project as it was.
pub reload_sound :
    (fs : Files) (reg : ProjectRegistry) (name : Text) (m : Manifest)
    → (reload fs reg name).0 ≡ ok m
    → IsReloaded reg (reload fs reg name).1 name m
unfolding reload resolve_cache_bounds set_config
reload_sound fs reg name m h = elim (Option-cases (lookup name reg.inner)) [
  | inl q ↦ absurd (ground arith)
  | inr (p, q) ↦ elim (Result-cases (load_named fs name p.project_path)) [
    | inr (e, l) ↦ absurd (ground arith)
    | inl ((m', path), l) ↦
        let same_manifest : m' ≡ m = ground arith in
        let after : (reload fs reg name).1
            ≡ record reg { inner = insert name (reloaded reg p m') reg.inner } =
          ground arith in
        rw after (record {
          old = p;
          new = reloaded reg p m';
          was = q;
          is_now = rw (lookup-insert, same_refl name) refl;
          manifest = same_manifest;
          kept = refl;
          max_entries = ground arith;
          ttl = ground arith;
          others = λ j apart. rw lookup-insert (ground (arith, same_iff name j));
        })
  ]
]

-- What a registration that succeeds has done.
pub record IsAdded (before after : ProjectRegistry) (s : Sockets) (p : Project) : Type 0 where
  pub was_absent : lookup p.name before.inner ≡ none
  pub is_now : lookup p.name after.inner ≡ some p
  pub others : (j : Text) → ¬ (p.name ≡ j) → lookup j after.inner ≡ lookup j before.inner
  pub empty_cache : p.cache.map ≡ []
  pub at_path : p.socket_path ≡ socket_path_for before.socket_dir p.name
  pub socket : lookup p.socket_path s ≡ some 0o660

insert_project_sound :
    (faults : Faults) (reg : ProjectRegistry) (project p : Project) (s : Sockets)
    → (insert_project faults reg project s).0 ≡ ok p
    → project.cache.map ≡ []
    → project.socket_path ≡ socket_path_for reg.socket_dir project.name
    → let r = insert_project faults reg project s in IsAdded reg r.1 r.2 p
unfolding insert_project contains_key
insert_project_sound faults reg project p s h empty path =
    elim (Option-cases (lookup project.name reg.inner)) [
      | inr (old, q) ↦ absurd (ground arith)
      | inl q ↦ elim (Result-cases (bind_project_socket faults project.socket_path s).0) [
        | inr (e, b) ↦ absurd (ground arith)
        | inl (_, b) ↦
            let e : project ≡ p = ground arith in
            let added : IsAdded reg (record reg { inner = insert project.name project reg.inner })
                (bind_project_socket faults project.socket_path s).1 project =
              record {
                was_absent = q;
                is_now = rw (lookup-insert, same_refl project.name) refl;
                others = λ j apart. rw lookup-insert (ground (arith, same_iff project.name j));
                empty_cache = empty;
                at_path = path;
                socket = bind_project_socket-ok faults project.socket_path s (ground arith);
              } in
            rw (q, b, insert_project, contains_key) (subst (IsAdded reg _ _) e added)
      ]
    ]

name_of_insert :
    (faults : Faults) (reg : ProjectRegistry) (project p : Project) (s : Sockets)
    → (insert_project faults reg project s).0 ≡ ok p
    → p.name ≡ project.name
unfolding insert_project
name_of_insert faults reg project p s h = ground arith

-- A registration that succeeds found the name free, adds the project under the name that was asked
-- for, with an empty cache and a socket of mode 0660 at the path of that name, and changes no
-- other project.
pub register_sound :
    (fs : Files) (faults : Faults) (reg : ProjectRegistry) (name project_path : Text) (p : Project)
    (s : Sockets)
    → (register fs faults reg name project_path s).0 ≡ ok p
    → let r = register fs faults reg name project_path s in (p.name ≡ name) × IsAdded reg r.1 r.2 p
unfolding register resolve_cache_bounds
register_sound fs faults reg name project_path p s h =
    elim (Result-cases (load_named fs name project_path)) [
      | inr (e, l) ↦ absurd (ground arith)
      | inl ((m, path), l) ↦
          let project = project_of reg name project_path m path in
          let done : (insert_project faults reg project s).0 ≡ ok p = ground arith in
          let added = insert_project_sound faults reg project p s done refl refl in
          (name_of_insert faults reg project p s done, rw (l, register) added)
    ]
