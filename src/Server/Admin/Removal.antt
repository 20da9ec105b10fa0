-- ===== src/Server/Admin/Removal.antt =====
-- `dispatch_unregister` of src/server.rs, on its own and with a registration in the middle of it.
use remo_broker.Base.{
  ◌≡◌, ◌≢◌, refl, sym, ap, ◌∙◌, subst, none, some, Text, same_iff, same_refl, ok, arith,
}
use remo_broker.Base.Map.{lookup, contains_key, lookup-remove}
use remo_broker.Registry.{Project, ProjectRegistry, register, unregister, socket_path_for}
use remo_broker.Registry.Disk.{remove_file}
use remo_broker.Registry.Effects.{register_sound}
use remo_broker.Proto.{done}
use remo_broker.Server.Admin.{
  Daemon, Outside, dispatch_register, register_answer, dispatch_unregister, unregister_answer,
  remove_socket, end_loop,
}
use remo_broker.Server.Admin.Serving.{IsServing}

-- What is gone, and what has stayed.
pub record IsRemoved {F : Type 0} (before after : Daemon F) (name : Text) (p : Project)
    : Type 0 where
  pub project : lookup name after.registry.inner ≡ none
  pub loop : lookup name after.project_tasks ≡ none
  pub socket : lookup p.socket_path after.sockets ≡ none
  pub others :
      (j : Text) → name ≢ j → lookup j after.registry.inner ≡ lookup j before.registry.inner
  pub other_loops :
      (j : Text) → name ≢ j → lookup j after.project_tasks ≡ lookup j before.project_tasks
  pub other_sockets :
      (path : Text) → p.socket_path ≢ path → lookup path after.sockets ≡ lookup path before.sockets

-- Where the socket's file can be removed, unregistering a project succeeds, removes its entry, its
-- accept loop and its socket, and leaves every other project, loop and socket as it was.
pub dispatch_unregister_sound :
    {F : Type 0} (o : Outside) (name : Text) (d : Daemon F) (p : Project)
    → lookup name d.registry.inner ≡ some p
    → o.faults.remove_fault p.socket_path ≡ none
    → ((dispatch_unregister o name d).0 ≡ done)
      × IsRemoved d (dispatch_unregister o name d).1 name p
unfolding dispatch_unregister unregister_answer unregister remove_file contains_key
dispatch_unregister_sound o name d p at removable =
    rw (at, removable, dispatch_unregister, unregister_answer, unregister, remove_file)
      (
        refl,
        record {
          project = rw (lookup-remove, same_refl name) refl;
          loop = rw (lookup-remove, same_refl name) refl;
          socket =
              ground (
                arith,
                lookup-remove p.socket_path p.socket_path d.sockets,
                same_refl p.socket_path,
              );
          others =
              λ j apart. ground (arith, lookup-remove name j d.registry.inner, same_iff name j);
          other_loops =
              λ j apart. ground (arith, lookup-remove name j d.project_tasks, same_iff name j);
          other_sockets = λ path apart.
              ground
                (arith, lookup-remove p.socket_path path d.sockets, same_iff p.socket_path path);
        },
      )

socket_dir-unregister :
    (reg : ProjectRegistry) (name : Text) → (unregister reg name).1.socket_dir ≡ reg.socket_dir
unfolding unregister
socket_dir-unregister reg name = ground arith

-- `dispatch_unregister` up to its wait for the accept loop to end; what comes after the wait is
-- `remove_socket`.
abbrev pub unregister_begun : {F : Type 0} → Text → Daemon F → Daemon F
unregister_begun name d = end_loop name (record d { registry = (unregister d.registry name).1 })

-- While `dispatch_unregister` waits for the loop of a project to end, another connection may
-- register the name again: where that succeeds, and the socket's file can be removed, the end of
-- the unregister removes the new project's socket, and the daemon is left with a registered
-- project whose socket is not on disk.
pub unregister_strands :
    {F : Type 0} (o : Outside) (name path : Text) (d : Daemon F) (old new : Project)
    → IsServing d
    → lookup name d.registry.inner ≡ some old
    → o.faults.remove_fault old.socket_path ≡ none
    → let begun = unregister_begun name d in
      (register o.files o.faults begun.registry name path begun.sockets).0 ≡ ok new
      → let last = remove_socket o.faults old (dispatch_register o name path begun).1 in
        (lookup name last.registry.inner ≡ some new) × (lookup new.socket_path last.sockets ≡ none)
unfolding dispatch_register register_answer remove_file contains_key
unregister_strands o name path d old new v at removable h =
    let begun = unregister_begun name d in
    let (named, added) =
      register_sound o.files o.faults begun.registry name path new begun.sockets h in
    let same_path : new.socket_path ≡ old.socket_path =
      added.at_path
      ∙ ap (socket_path_for begun.registry.socket_dir) named
      ∙ ap (λ dir. socket_path_for dir name) (socket_dir-unregister d.registry name)
      ∙ sym (v.consistent.entries name old at).at_path in
    let after = register o.files o.faults begun.registry name path begun.sockets in
    let here : lookup name after.1.inner ≡ some new =
      subst (λ k. lookup k after.1.inner ≡ some new) named added.is_now in
    rw (h, register_answer)
      (
        here,
        rw same_path (
            ground (
              arith,
              lookup-remove old.socket_path old.socket_path
                  (register o.files o.faults begun.registry name path begun.sockets).2,
              same_refl old.socket_path,
            )),
      )
