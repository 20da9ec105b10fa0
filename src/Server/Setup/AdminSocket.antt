-- ===== src/Server/Setup/AdminSocket.antt =====
-- The admin socket of src/server.rs, and the project sockets of src/registry.rs beside it.
use remo_broker.Base.{
  ◌≡◌, ◌≢◌, ap, ◌∙◌, subst, none, some, Text, codes, same_iff, same_refl, ok, Option-cases,
  Result-cases, inl, inr, arith,
}
use remo_broker.Base.Map.{lookup, remove, insert, contains_key, lookup-insert, lookup-remove}
use remo_broker.Manifest.{Files}
use remo_broker.Manifest.{is_valid_project_name}
use remo_broker.Manifest.Names.{IsProjectName, is_valid_project_name_iff}
use remo_broker.Registry.{
  Project, ProjectRegistry, register, socket_path_for, load_named, insert_project,
  bind_project_socket,
}
use remo_broker.Registry.Disk.{Sockets, Faults, remove_file, bind, set_permissions}
use remo_broker.Registry.Errors.{lookup-bind_project_socket_ne}
use remo_broker.Registry.Names.{socket_path_for_injective, load_named_sound}
use remo_broker.Registry.Effects.{register_sound}
use remo_broker.Server.Setup.{admin_path, bind_admin_socket, admin_cleared, admin_bound}

abbrev pub admin : Text
admin = codes "admin"

-- Where no call fails, the admin socket is bound with mode 0600, whether a stale file was in its
-- place or not, and every other socket is as it was.
pub bind_admin_socket_lem :
    (faults : Faults) (path : Text) (s : Sockets)
    → faults.remove_fault path ≡ none
    → faults.bind_fault path ≡ none
    → faults.chmod_fault path ≡ none
    → ((bind_admin_socket faults path s).0 ≡ ok tt)
      × (lookup path (bind_admin_socket faults path s).1 ≡ some 0o600)
      × ((j : Text) → path ≢ j → lookup j (bind_admin_socket faults path s).1 ≡ lookup j s)
unfolding bind_admin_socket admin_cleared admin_bound remove_file bind set_permissions contains_key
bind_admin_socket_lem faults path s r b c = elim (Option-cases (lookup path s)) [
  | inl q ↦ (
    ground (
      arith,
      lookup-insert path path faults.bind_mode s,
      lookup-insert path path 0o600 (insert path faults.bind_mode s),
      same_refl path,
    ),
    ground (
      arith,
      lookup-insert path path faults.bind_mode s,
      lookup-insert path path 0o600 (insert path faults.bind_mode s),
      same_refl path,
    ),
    λ j apart. ground (
      arith,
      lookup-insert path j faults.bind_mode s,
      lookup-insert path j 0o600 (insert path faults.bind_mode s),
      lookup-insert path path faults.bind_mode s,
      same_refl path,
      same_iff path j,
    ),
  )
  | inr (mode, q) ↦ (
    ground (
      arith,
      lookup-insert path path faults.bind_mode (remove path s),
      lookup-insert path path 0o600 (insert path faults.bind_mode (remove path s)),
      same_refl path,
      lookup-remove path path s,
    ),
    ground (
      arith,
      lookup-insert path path faults.bind_mode (remove path s),
      lookup-insert path path 0o600 (insert path faults.bind_mode (remove path s)),
      same_refl path,
      lookup-remove path path s,
    ),
    λ j apart. ground (
      arith,
      lookup-insert path j faults.bind_mode (remove path s),
      lookup-insert path j 0o600 (insert path faults.bind_mode (remove path s)),
      lookup-insert path path faults.bind_mode (remove path s),
      same_refl path,
      same_iff path j,
      lookup-remove path path s,
      lookup-remove path j s,
    ),
  )
]

-- The socket of a project named `admin` is at the path of the admin socket: a registration of
-- that name that succeeds puts a socket of mode 0660 in the admin socket's place.
pub register_takes_admin :
    (fs : Files) (faults : Faults) (reg : ProjectRegistry) (path : Text) (p : Project) (s : Sockets)
    → (register fs faults reg admin path s).0 ≡ ok p
    → lookup (admin_path reg.socket_dir) (register fs faults reg admin path s).2 ≡ some 0o660
unfolding admin_path socket_path_for
register_takes_admin fs faults reg path p s h =
    let (named, added) = register_sound fs faults reg admin path p s h in
    let at : p.socket_path ≡ admin_path reg.socket_dir =
      added.at_path ∙ ap (socket_path_for reg.socket_dir) named in
    subst (λ x. lookup x (register fs faults reg admin path s).2 ≡ some 0o660) at added.socket

admin-IsProjectName : IsProjectName admin
admin-IsProjectName =
    (is_valid_project_name_iff admin).0 (unfold is_valid_project_name in ground arith)

socket_keeps_admin :
    (faults : Faults) (dir name : Text) (s : Sockets)
    → IsProjectName name
    → name ≢ admin
    → lookup (admin_path dir) (bind_project_socket faults (socket_path_for dir name) s).1
      ≡ lookup (admin_path dir) s
unfolding admin_path socket_path_for
socket_keeps_admin faults dir name s safe apart =
    lookup-bind_project_socket_ne faults (socket_path_for dir name) s (admin_path dir)
      (λ e. apart (socket_path_for_injective dir name admin safe admin-IsProjectName e))

-- A registration of any other name, whether it succeeds or fails, leaves the admin socket as it
-- was.
pub register_keeps_admin :
    (fs : Files) (faults : Faults) (reg : ProjectRegistry) (name path : Text) (s : Sockets)
    → name ≢ admin
    → lookup (admin_path reg.socket_dir) (register fs faults reg name path s).2
      ≡ lookup (admin_path reg.socket_dir) s
unfolding register insert_project contains_key
register_keeps_admin fs faults reg name path s apart =
    elim (Result-cases (load_named fs name path)) [
      | inr (e, q) ↦ ground arith
      | inl ((m, at), q) ↦
          let safe = (load_named_sound fs name path at m q).1 in
          let socket = socket_path_for reg.socket_dir name in
          let kept = socket_keeps_admin faults reg.socket_dir name s safe apart in
          elim (Option-cases (lookup name reg.inner)) [
            | inr (old, t) ↦ ground arith
            | inl t ↦ elim (Result-cases (bind_project_socket faults socket s).0) [
              | inr (e, b) ↦ ground (arith, kept)
              | inl (_, b) ↦ ground (arith, kept)
            ]
          ]
    ]
