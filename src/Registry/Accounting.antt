-- ===== src/Registry/Accounting.antt =====
-- Which files of the socket directory src/registry.rs answers for.
use remo_broker.Base.{
  ◌≡◌, ◌≢◌, ◌∙◌, subst, none, some, Text, same, same_iff, same_refl, Bool-cases, Option-cases,
  Result-cases, inl, inr, err, arith,
}
use remo_broker.Base.Map.{Map, lookup, remove, contains_key, lookup-insert, lookup-remove}
use remo_broker.Manifest.{Files}
use remo_broker.Registry.{
  Project, ProjectRegistry, RegistryError, register, reload, reloaded, insert_project,
  bind_project_socket, load_named, project_of, after_bind, after_remove,
}
use remo_broker.Registry.Disk.{Sockets, Faults, remove_file, bind, set_permissions}
use remo_broker.Registry.Errors.{lookup-bind_project_socket_ne, lookup-remove_file_ne}

-- No call to remove a file or to set its mode fails for a reason of its own.
pub record Works (faults : Faults) : Type 0 where
  pub removes : (path : Text) → faults.remove_fault path ≡ none
  pub chmods : (path : Text) → faults.chmod_fault path ≡ none

-- No registered project has the path.
abbrev pub IsFree : Map Project → Text → Type 0
IsFree m j = (name : Text) (p : Project) → lookup name m ≡ some p → p.socket_path ≢ j

-- A path that is none of the registered projects' and was clear before is clear now.
abbrev pub IsAccounted : Map Project → Sockets → Sockets → Text → Type 0
IsAccounted m before s j = IsFree m j → lookup j before ≡ none → lookup j s ≡ none

module _ (faults : Faults) (works : Works faults) where
  pub remove_file_clears :
      (path : Text) (s : Sockets) → lookup path (remove_file faults path s).1 ≡ none
  unfolding remove_file contains_key
  remove_file_clears path s =
      ground (arith, works.removes path, lookup-remove path path s, same_refl path)

  -- A bind that fails leaves no file of its own.
  bind_project_socket_clears :
      (path : Text) (s : Sockets) (e : RegistryError)
      → (bind_project_socket faults path s).0 ≡ err e
      → lookup path (bind_project_socket faults path s).1 ≡ none
  unfolding bind_project_socket after_remove after_bind remove_file bind set_permissions
      contains_key
  bind_project_socket_clears path s e h = ground (
    arith,
    works.removes path,
    works.chmods path,
    same_refl path,
    lookup-remove path path s,
    lookup-insert path path faults.bind_mode s,
    lookup-insert path path faults.bind_mode (remove path s),
  )

  insert_project-IsAccounted :
      (reg : ProjectRegistry) (project : Project) (before s : Sockets) (j : Text)
      → IsAccounted reg.inner before s j
      → let r = insert_project faults reg project s in IsAccounted r.1.inner before r.2 j
  unfolding insert_project contains_key
  insert_project-IsAccounted reg project before s j acc =
      elim (Option-cases (lookup project.name reg.inner)) [
        | inr (old, t) ↦ rw t acc
        | inl t ↦ elim (Result-cases (bind_project_socket faults project.socket_path s).0) [
          | inr (e, b) ↦
              rw (t, b)
                (λ free clear. elim (Bool-cases (same project.socket_path j)) [
                  | inl here ↦
                      subst
                        (λ k. lookup k (bind_project_socket faults project.socket_path s).1 ≡ none)
                        ((same_iff project.socket_path j).0 here)
                        (bind_project_socket_clears project.socket_path s e b)
                  | inr there ↦
                      lookup-bind_project_socket_ne faults project.socket_path s j
                        (λ q. ground (arith, same_iff project.socket_path j))
                      ∙ acc free clear
                ])
          | inl (_, b) ↦
              rw (t, b)
                (λ free clear.
                  let apart : project.socket_path ≢ j = free project.name project (
                    ground (
                      arith,
                      lookup-insert project.name project.name project reg.inner,
                      same_refl project.name,
                    )) in
                  lookup-bind_project_socket_ne faults project.socket_path s j apart
                  ∙ acc
                      (λ k q at. free k q (
                        ground (
                          arith,
                          lookup-insert project.name k project reg.inner,
                          same_iff project.name k,
                        )))
                      clear)
        ]
      ]

  pub register-IsAccounted :
      (fs : Files) (reg : ProjectRegistry) (name path : Text) (before s : Sockets) (j : Text)
      → IsAccounted reg.inner before s j
      → let r = register fs faults reg name path s in IsAccounted r.1.inner before r.2 j
  unfolding register
  register-IsAccounted fs reg name path before s j acc =
      elim (Result-cases (load_named fs name path)) [
        | inr (e, q) ↦ rw (q, register) acc
        | inl ((m, at), q) ↦
            rw (q, register)
              (insert_project-IsAccounted reg (project_of reg name path m at) before s j acc)
      ]

  pub unregister-IsAccounted :
      (m : Map Project) (name : Text) (p : Project) (before s : Sockets) (j : Text)
      → lookup name m ≡ some p
      → IsAccounted m before s j
      → IsAccounted (remove name m) before (remove_file faults p.socket_path s).1 j
  unregister-IsAccounted m name p before s j at acc free clear =
      elim (Bool-cases (same p.socket_path j)) [
        | inl here ↦
            subst (λ k. lookup k (remove_file faults p.socket_path s).1 ≡ none)
              ((same_iff p.socket_path j).0 here) (remove_file_clears p.socket_path s)
        | inr there ↦
            lookup-remove_file_ne faults p.socket_path s j
              (λ q. ground (arith, same_iff p.socket_path j))
            ∙ acc
                (λ k q old e. elim (Bool-cases (same name k)) [
                  | inl this ↦ absurd (ground (arith, same_iff name k, same_iff p.socket_path j))
                  | inr there ↦ free k q (ground (arith, lookup-remove name k m)) e
                ])
                clear
      ]

pub reload-IsAccounted :
    (fs : Files) (reg : ProjectRegistry) (name : Text) (before s : Sockets) (j : Text)
    → IsAccounted reg.inner before s j
    → IsAccounted (reload fs reg name).1.inner before s j
unfolding reload
reload-IsAccounted fs reg name before s j acc free clear =
    acc
      (λ k q at e. elim (Option-cases (lookup name reg.inner)) [
        | inl t ↦ free k q (ground arith) e
        | inr (project, t) ↦ elim (Result-cases (load_named fs name project.project_path)) [
          | inr (_, r) ↦ free k q (ground arith) e
          | inl ((m, path), r) ↦ elim (Bool-cases (same name k)) [
            | inl this ↦
                free k (reloaded reg project m)
                  (ground (arith, lookup-insert name k (reloaded reg project m) reg.inner))
                  (ground (arith, same_iff name k))
            | inr there ↦
                free k q (ground (arith, lookup-insert name k (reloaded reg project m) reg.inner)) e
          ]
        ]
      ])
      clear
