-- ===== src/Registry/Errors.antt =====
-- Each outcome of the operations of src/registry.rs, errors included, and what it leaves as it was.
use remo_broker.Base.{
  ℕ, ◌≡◌, ◌≢◌, refl, ◌∙◌, some, arith, Text, same_iff, same_refl, Result, ok, err,
}
use remo_broker.Base.Map.{lookup, lookup-remove, lookup-insert}
use remo_broker.Registry.{bind_project_socket, after_bind, after_remove}
use remo_broker.Registry.Disk.{
  Sockets, Faults, IoError, missing, other, remove_file, bind, set_permissions,
}

module _ (faults : Faults) (path : Text) (s : Sockets) (j : Text) (apart : path ≢ j) where
  pub lookup-remove_file_ne : lookup j (remove_file faults path s).1 ≡ lookup j s
  unfolding remove_file
  lookup-remove_file_ne = ground (arith, lookup-remove path j s, same_iff path j)

  lookup-bind_ne : lookup j (bind faults path s).1 ≡ lookup j s
  unfolding bind
  lookup-bind_ne = ground (arith, lookup-insert path j faults.bind_mode s, same_iff path j)

  lookup-set_permissions_ne :
      (mode : ℕ) → lookup j (set_permissions faults path mode s).1 ≡ lookup j s
  unfolding set_permissions
  lookup-set_permissions_ne mode = ground (arith, lookup-insert path j mode s, same_iff path j)

set_permissions-ok :
    (faults : Faults) (path : Text) (mode : ℕ) (s : Sockets)
    → (set_permissions faults path mode s).0 ≡ ok tt
    → lookup path (set_permissions faults path mode s).1 ≡ some mode
unfolding set_permissions
set_permissions-ok faults path mode s h =
    ground (arith, lookup-insert path path mode s, same_refl path)

after_bind_ne :
    (faults : Faults) (path : Text) (r : Result IoError (Unit {0})) (s : Sockets) (j : Text)
    → path ≢ j
    → lookup j (after_bind path (r, s) faults).1 ≡ lookup j s
unfolding after_bind
after_bind_ne faults path (err e) s j apart = refl
after_bind_ne faults path (ok _) s j apart = lookup-set_permissions_ne faults path s j apart 0o660

after_remove_ne :
    (faults : Faults) (path : Text) (r : Result IoError (Unit {0})) (s : Sockets) (j : Text)
    → path ≢ j
    → lookup j (after_remove path (r, s) faults).1 ≡ lookup j s
unfolding after_remove
after_remove_ne faults path (err (other e)) s j apart = refl
after_remove_ne faults path (err missing) s j apart =
    after_bind_ne faults path _ _ j apart ∙ lookup-bind_ne faults path s j apart
after_remove_ne faults path (ok _) s j apart =
    after_bind_ne faults path _ _ j apart ∙ lookup-bind_ne faults path s j apart

-- Binding one socket leaves every other as it was, whether it succeeds or fails.
pub lookup-bind_project_socket_ne :
    (faults : Faults) (path : Text) (s : Sockets) (j : Text)
    → path ≢ j
    → lookup j (bind_project_socket faults path s).1 ≡ lookup j s
unfolding bind_project_socket
lookup-bind_project_socket_ne faults path s j apart =
    after_remove_ne faults path _ _ j apart ∙ lookup-remove_file_ne faults path s j apart

after_bind-ok :
    (faults : Faults) (path : Text) (r : Result IoError (Unit {0})) (s : Sockets)
    → (after_bind path (r, s) faults).0 ≡ ok tt
    → lookup path (after_bind path (r, s) faults).1 ≡ some 0o660
unfolding after_bind
after_bind-ok faults path (err e) s h = cc
after_bind-ok faults path (ok _) s h = set_permissions-ok faults path 0o660 s (ground arith)

after_remove-ok :
    (faults : Faults) (path : Text) (r : Result IoError (Unit {0})) (s : Sockets)
    → (after_remove path (r, s) faults).0 ≡ ok tt
    → lookup path (after_remove path (r, s) faults).1 ≡ some 0o660
unfolding after_remove
after_remove-ok faults path (err (other e)) s h = cc
after_remove-ok faults path (err missing) s h = after_bind-ok faults path _ _ h
after_remove-ok faults path (ok _) s h = after_bind-ok faults path _ _ h

-- A socket that is bound has mode 0660.
pub bind_project_socket-ok :
    (faults : Faults) (path : Text) (s : Sockets)
    → (bind_project_socket faults path s).0 ≡ ok tt
    → lookup path (bind_project_socket faults path s).1 ≡ some 0o660
unfolding bind_project_socket
bind_project_socket-ok faults path s h = after_remove-ok faults path _ _ h
