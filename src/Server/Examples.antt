-- ===== src/Server/Examples.antt =====
-- The control plane's and the connections' properties at concrete inputs.
use remo_broker.Base.{
  ℕ, ◌≡◌, ◌↔◌, refl, true, some, [], ◌∷◌, ◌++◌, codes, arith, Text, Result, ok, length, err,
  is_empty, same,
}
use remo_broker.Base.Texts
use remo_broker.Base.Paths
use remo_broker.Base.Map
use remo_broker.Base.Map.{lookup}
use remo_broker.Registry.Disk
use remo_broker.Registry
use remo_broker.Registry.{register, socket_path_for}
use remo_broker.Registry.Samples.{
  alpha, alpha_path, disk, no_faults, project, registered, bound, alpha_loads, alpha_registers,
  fresh,
}
use remo_broker.Proto
use remo_broker.Proto.{AdminRequest, Message}
use remo_broker.Audit.Bounded.{bounded}
use remo_broker.Server.Admin.{Daemon, dispatch_admin, dispatch_register, dispatch_rotate_bootstrap}
use remo_broker.Server.Admin.Serving.{IsServing, dispatch_admin-IsServing}
use remo_broker.Server.Admin.Rotation.{IsRotation, dispatch_rotate_bootstrap_sound}
use remo_broker.Server.Admin.Removal.{unregister_begun}
use remo_broker.Server.Connection.{read_line_capped, handle_project_connection, too_long, closes}
use remo_broker.Server.Connection.Framing.{IsLine, IsRead, read_line_capped_iff}
use remo_broker.Server.Connection.Lines.{encode, IsMessage, in_turn}
use remo_broker.Server.Connection.Sessions.{project_service, handle_project_connection-encode}
use remo_broker.Server.Setup.{admin_path}
use remo_broker.Server.Shutdown.{
  shutdown_begun, shutdown_ended, drain_project_loops, remove_registered_sockets,
  remove_project_sockets,
}
use remo_broker.Server.Shutdown.Late.{register_outlives}
use remo_broker.Server.Samples.{numbered, peer, at_second, plane, outside, daemon, daemon-IsServing}

dispatch_admin-IsServing_example :
    IsServing (dispatch_admin numbered outside (Proto.unregister alpha) daemon).1
dispatch_admin-IsServing_example =
    dispatch_admin-IsServing numbered outside (Proto.unregister alpha) daemon daemon-IsServing

dispatch_rotate_bootstrap_sound_example :
    IsRotation numbered outside daemon (dispatch_rotate_bootstrap numbered outside daemon)
dispatch_rotate_bootstrap_sound_example = dispatch_rotate_bootstrap_sound numbered outside daemon

alpha_there : lookup alpha registered.inner ≡ some project
unfolding lookup same
alpha_there = refl

again :
    (register disk no_faults (unregister_begun alpha daemon).registry alpha alpha_path bound).0
    ≡ ok project
unfolding register Registry.unregister Registry.insert_project Registry.bind_project_socket
    Disk.remove_file Disk.bind Disk.set_permissions Map.contains_key lookup Map.insert Map.remove
    Registry.socket_path_for Registry.resolve_cache_bounds same Texts.starts_with Texts.ends_with
    is_empty Paths.join
again = rw (alpha_loads, register) refl

abbrev ping : Text
ping = codes "{\"op\":\"ping\"}"

ping-IsMessage : IsMessage ping
ping-IsMessage = (refl, omega arith)

read_line_capped_iff_example :
    ((line rest : Text)
      → (read_line_capped 16 ping ≡ ok (line, rest))
        ↔ ((line ++ rest ≡ ping) × IsRead 16 line rest))
    × ((m : Message)
        → (read_line_capped 16 ping ≡ err m) ↔ (
            (m ≡ too_long 16)
            × ((l : Text) × (rest : Text) × (ping ≡ l ++ rest) × IsLine l × (length l ≡ 16))))
read_line_capped_iff_example = read_line_capped_iff 16 ping

abbrev status_of_text : Text → Result Text AdminRequest
status_of_text s = ok Proto.status

abbrev get_of_text : Text → Result Text Proto.ProjectRequest
get_of_text s = ok (Proto.get (codes "FOO"))

handle_project_connection-encode_example :
    handle_project_connection bounded numbered
      (some 1)
      (codes "0.1.0")
      get_of_text
      peer
      at_second
      (λ n. true)
      closes
      (encode (ping ∷ ping ∷ []))
      plane
    ≡ in_turn
        (project_service bounded numbered
          (some 1)
          (codes "0.1.0")
          get_of_text
          peer
          at_second
          (λ n. true)
          closes)
        0
        (ping ∷ ping ∷ [])
        plane
handle_project_connection-encode_example =
    handle_project_connection-encode bounded numbered (some 1) (codes "0.1.0") get_of_text peer
      at_second (λ n. true) closes (ping ∷ ping ∷ []) plane (λ k. refl)
      (ping-IsMessage, (ping-IsMessage, tt))

-- A daemon without projects.
abbrev empty_daemon : Daemon ℕ
empty_daemon = record daemon { registry = fresh; project_tasks = []; sockets = [] }

alpha_late :
    let begun = shutdown_begun no_faults empty_daemon in
    (register disk no_faults begun.registry alpha alpha_path begun.sockets).0 ≡ ok project
unfolding shutdown_begun remove_registered_sockets drain_project_loops remove_project_sockets
alpha_late = rw alpha_registers refl

register_outlives_example :
    let begun = shutdown_begun no_faults empty_daemon in
    let last =
      (shutdown_ended bounded no_faults 9
        (dispatch_register outside alpha alpha_path begun).1
        (record { tx = []; dropped = 0 })).0 in
    (lookup alpha last.project_tasks ≡ some project.socket_path)
    × (lookup project.socket_path last.sockets ≡ some 0o660)
unfolding shutdown_begun remove_registered_sockets drain_project_loops admin_path socket_path_for
    Texts.starts_with Texts.ends_with Texts.is_empty Paths.join
register_outlives_example =
    register_outlives outside alpha alpha_path bounded no_faults 9 empty_daemon
      (record { tx = []; dropped = 0 }) project alpha_late (λ e. ground arith)
