-- ===== src/Server/Projects/Races.antt =====
-- What becomes of Server/Projects where requests about one name do overlap.
use remo_broker.Base.{ℕ, ◌<◌, ◌≡◌, ◌≢◌, ap, none, some, true, Text, same_refl, ok, arith}
use remo_broker.Base.Map.{lookup, insert, remove, lookup-insert, lookup-remove, contains_key}
use remo_broker.Registry.{Project, ProjectRegistry, register, unregister}
use remo_broker.Registry.Disk.{Sockets, remove_file}
use remo_broker.Registry.Effects.{register_sound}
use remo_broker.Server.Admin.{Outside}
use remo_broker.Server.Projects.{
  Stage, idle, keeping, telling, taking, awaiting, unlinking, over, System, registered, kept,
  removed, notified, took, untracked, aborted, unlinked, IsFree, Reach, here, later, registers,
  keeps, removes, notifies, takes, goes_on, aborts, unlinks,
}
use remo_broker.Server.Projects.Agreement.{IsAgreed, Holds, is_running}
use remo_broker.Server.Projects.Signals.{is_untold, about_to_tell}
use remo_broker.Server.Projects.Forgotten.{IsForgotten, Reach-IsForgotten}

unregister-lookup :
    (reg : ProjectRegistry) (name : Text) (p : Project)
    → lookup name reg.inner ≡ some p
    → unregister reg name ≡ (ok p, record reg { inner = remove name reg.inner })
unfolding unregister
unregister-lookup reg name p at = ground arith

lookup-remove_file :
    (o : Outside) (path : Text) (s : Sockets)
    → o.faults.remove_fault path ≡ none
    → lookup path (remove_file o.faults path s).1 ≡ none
unfolding remove_file contains_key
lookup-remove_file o path s h = ground (arith, lookup-remove path path s, same_refl path)

-- Connection `d` registers the name, and `c` unregisters it.
module _ (t : System) (c d : ℕ) (o : Outside) (name : Text) (p : Project) (reg : ProjectRegistry)
    (s : Sockets) where
  -- All of the unregister runs before `d` has kept the handle of the loop.
  abbrev pub orphaned : System
  orphaned = keeps d name t.next (
      unlinks c name t.next p o.faults (
        goes_on c name t.next p (
          takes c name t.next p (
            notifies c name t.next p (
              removes c name t.next p (record reg { inner = remove name reg.inner })
                (registers d name reg s t))))))

  -- The name is unregistered, and registered again before `c` has taken a handle.
  module _ (id : ℕ) (old : Project) where
    abbrev pub begun : System
    begun = removes c name id old (record t.registry { inner = remove name t.registry.inner }) t

    abbrev pub again : System
    again = keeps d name t.next (registers d name reg s begun)

    abbrev pub stranded : System
    stranded =
        unlinks c name id old o.faults
          (aborts c name id old t.next (takes c name id old (notifies c name id old again)))

meant-lt :
    (t : System) (id : ℕ) (stage : Stage)
    → Holds t stage
    → about_to_tell stage ≡ some id
    → id < t.next
meant-lt t id idle h e = absurd (ground arith)
meant-lt t id (keeping n j) h e = absurd (ground arith)
meant-lt t id (telling n j q) h e = ground (arith, h)
meant-lt t id (taking n j q) h e = absurd (ground arith)
meant-lt t id (awaiting n j q handle) h e = absurd (ground arith)
meant-lt t id (unlinking n j q) h e = absurd (ground arith)

module _ (t : System) (v : IsAgreed t) (c d : ℕ) (apart : c ≢ d) (o : Outside) (name path : Text)
    (c_idle : t.stages c ≡ idle) (d_idle : t.stages d ≡ idle) (free : IsFree t name) where
  module _ (p : Project) (reg : ProjectRegistry) (s : Sockets) where
    forgotten :
        register o.files o.faults t.registry name path t.sockets ≡ (ok p, reg, s)
        → IsForgotten t.next (orphaned t c d o name p reg s)
    forgotten e = record {
      old = ground arith;
      absent = λ n at. ground (
        arith,
        v.owned n t.next,
        lookup-remove name n (insert name t.next t.arcs),
        lookup-insert name n t.next t.arcs,
      );
      unmeant = λ i h. ground (arith, meant-lt t t.next (t.stages i) (v.holds i));
      untold = ground arith;
    }

    -- A loop that nobody tells to stop: where another connection unregisters a name between the
    -- moment that `dispatch_register` has added the project and the moment that it keeps the handle
    -- of the accept loop, and the socket's file can be removed, then both requests end with the name
    -- not registered and the socket gone, but with the accept loop running and its handle kept; and
    -- whatever happens afterwards, no stop signal reaches that loop.
    pub register_orphans :
        (w : System)
        → register o.files o.faults t.registry name path t.sockets ≡ (ok p, reg, s)
        → o.faults.remove_fault p.socket_path ≡ none
        → Reach (orphaned t c d o name p reg s) w
        → let u = orphaned t c d o name p reg s in
          Reach t u
          × IsFree u name
          × (lookup name u.registry.inner ≡ none)
          × (lookup p.socket_path u.sockets ≡ none)
          × (lookup name u.project_tasks ≡ some t.next)
          × (is_running (u.loops t.next).life ≡ true)
          × (is_untold (w.loops t.next).life ≡ true)
    register_orphans w e removable goes =
        let x =
          register_sound o.files o.faults t.registry name path p t.sockets (ap (λ r. r.0) e) in
        let at : lookup name reg.inner ≡ some p = ground (arith, x) in
        let tracked : lookup name t.project_tasks ≡ none =
          ground (arith, x, v.tracked name free, v.arcs name) in
        (
          later
              (later
                (later
                  (later
                    (later
                      (later (later here (registered d o name path p reg s d_idle e)) (
                        removed c name t.next p _ (ground arith)
                          (ground (arith, lookup-insert name name t.next t.arcs, same_refl name))
                          (unregister-lookup reg name p at)))
                      (notified c name t.next p (ground arith)))
                    (took c name t.next p (ground arith)))
                  (untracked c name t.next p (ground arith)))
                (unlinked c o.faults name t.next p (ground arith)))
              (kept d name t.next (ground arith)),
          λ i q. ground (arith, free i),
          ground (arith, lookup-remove name name reg.inner, same_refl name),
          lookup-remove_file o p.socket_path s removable,
          ground
              (arith, lookup-insert name name t.next (remove name t.project_tasks), same_refl name),
          ground arith,
          (Reach-IsForgotten t.next goes (forgotten e)).untold,
        )

  module _ (id : ℕ) (old p : Project) (reg : ProjectRegistry) (s : Sockets) where
    -- The wrong loop is aborted: where another connection registers a name again after
    -- `dispatch_unregister` has taken the old project out of the registry and before it has taken
    -- the handle of the accept loop, and the socket's file can be removed, then the unregister may
    -- abort the new project's loop, and both requests end with the new project registered, but
    -- its loop over and its socket gone.
    pub unregister_aborts :
        lookup name t.registry.inner ≡ some old
        → lookup name t.arcs ≡ some id
        → register o.files o.faults (begun t c d o name p reg s id old).registry name path t.sockets
          ≡ (ok p, reg, s)
        → o.faults.remove_fault p.socket_path ≡ none
        → let u = stranded t c d o name p reg s id old in
          Reach t u
          × IsFree u name
          × (lookup name u.registry.inner ≡ some p)
          × (lookup name u.arcs ≡ some t.next)
          × ((u.loops t.next).life ≡ over)
          × (lookup p.socket_path u.sockets ≡ none)
    unregister_aborts was arc e removable =
        let x =
          register_sound o.files o.faults
            (removes c name id old (record t.registry { inner = remove name t.registry.inner })
              t).registry
            name path p t.sockets (ap (λ r. r.0) e) in
        let at : lookup name reg.inner ≡ some p = ground (arith, x) in
        let same_path : old.socket_path ≡ p.socket_path =
          ground (arith, x, v.consistent.entries name old was) in
        (
          later
              (later
                (later
                  (later
                    (later
                      (later
                        (later here (
                          removed c name id old _ c_idle arc
                            (unregister-lookup t.registry name old was)))
                        (registered d o name path p reg s (ground arith) e))
                      (kept d name t.next (ground arith)))
                    (notified c name id old (ground arith)))
                  (took c name id old (ground arith)))
                (aborted c name id old t.next
                  (ground (arith, lookup-insert name name t.next t.project_tasks, same_refl name))))
              (unlinked c o.faults name id old (ground arith)),
          λ i q. ground (arith, free i),
          at,
          ground (arith, lookup-insert name name t.next (remove name t.arcs), same_refl name),
          ground arith,
          rw same_path (lookup-remove_file o p.socket_path s removable),
        )
