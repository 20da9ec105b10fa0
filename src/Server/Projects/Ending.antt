-- ===== src/Server/Projects/Ending.antt =====
-- What `dispatch_unregister` of src/server.rs has seen to when it answers, in Server/Projects.
use remo_broker.Base.{
  ℕ, ◌≡◌, ap, ◌∙◌, subst, none, some, false, Text, same_refl, inl, inr, arith, Bool-cases,
}
use remo_broker.Base.Map.{lookup, lookup-remove, contains_key}
use remo_broker.Registry.{CacheDefaults, Project}
use remo_broker.Registry.Disk.{Sockets, Faults, remove_file}
use remo_broker.Server.Projects.{
  Life, spawned, looping, over, Stage, idle, keeping, telling, taking, awaiting, unlinking, subject,
  System, unlinks, Orderly, just_started,
}
use remo_broker.Server.Projects.Agreement.{IsAgreed, Holds, is_live, held, just_started-IsAgreed}
use remo_broker.Server.Projects.Soundness.{Orderly-IsAgreed}

not_live : (life : Life) → is_live life ≡ false → life ≡ over
not_live spawned h = cc
not_live (looping phase) h = cc
not_live over h = ap (λ x. over) h

-- A request that has a loop to see ended is about the name of that loop.
held-subject :
    (t : System) (stage : Stage) (i : ℕ)
    → Holds t stage
    → held stage ≡ some i
    → subject stage ≡ some (t.loops i).name
held-subject t idle i h q = cc
held-subject t (keeping n id) i h q = cc
held-subject t (telling n id p) i h q = ground (arith, h)
held-subject t (taking n id p) i h q = ground (arith, h)
held-subject t (awaiting n id p handle) i h q = ground (arith, h)
held-subject t (unlinking n id p) i h q = cc

loops_over :
    (t : System) (c : ℕ) (name : Text) (id : ℕ) (p : Project) (i : ℕ)
    → IsAgreed t
    → t.stages c ≡ unlinking name id p
    → (t.loops i).name ≡ name
    → (t.loops i).life ≡ over
loops_over t c name id p i v e named =
    let job : Holds t (unlinking name id p) = subst (Holds t) e (v.holds c) in
    elim (Bool-cases (is_live (t.loops i).life)) [
      | inr ended ↦ not_live (t.loops i).life ended
      | inl live ↦ elim (v.accounted i live) [
        | inl at ↦
            let here : lookup name t.arcs ≡ some i =
              subst (λ n. lookup n t.arcs ≡ some i) named at in
            absurd (ground (arith, job))
        | inr (d, q) ↦
            let about : subject (t.stages d) ≡ some name =
              held-subject t (t.stages d) i (v.holds d) q ∙ ap some named in
            let same_task : c ≡ d = v.exclusive c d name (ap subject e) about in
            let mine : held (t.stages c) ≡ some i = ap (λ k. held (t.stages k)) same_task ∙ q in
            absurd (ground (arith, mine, e))
      ]
    ]

-- However requests and accept loops interleave before the shutdown, where no two requests about one
-- name overlap: when an unregister removes the socket's file and answers, every accept loop that
-- was ever spawned for the name is over, that of its project among them, the name is not registered,
-- no handle is kept under it, and where the file can be removed the socket is gone.
pub unregister-ends :
    (socket_dir : Text) (defaults : CacheDefaults) (sockets : Sockets) {t : System} (c : ℕ)
    (name : Text) (id : ℕ) (p : Project) (faults : Faults) (i : ℕ)
    → Orderly (just_started socket_dir defaults sockets) t
    → t.stages c ≡ unlinking name id p
    → (t.loops i).name ≡ name
    → faults.remove_fault p.socket_path ≡ none
    → let u = unlinks c name id p faults t in
      ((u.loops i).life ≡ over)
      × ((u.loops id).name ≡ name)
      × ((u.loops id).life ≡ over)
      × (lookup name u.registry.inner ≡ none)
      × (lookup name u.project_tasks ≡ none)
      × (lookup p.socket_path u.sockets ≡ none)
unfolding remove_file contains_key
unregister-ends socket_dir defaults sockets {t} c name id p faults i r e named removable =
    let v = Orderly-IsAgreed (just_started-IsAgreed socket_dir defaults sockets) r in
    let job : Holds t (unlinking name id p) = subst (Holds t) e (v.holds c) in
    (
      loops_over t c name id p i v e named,
      job.1.1,
      loops_over t c name id p id v e job.1.1,
      ground (arith, v.arcs name, job),
      job.0,
      ground (arith, lookup-remove p.socket_path p.socket_path t.sockets, same_refl p.socket_path),
    )
