-- ===== src/Server/Projects/Finishing.antt =====
-- The last steps of `dispatch_register` and `dispatch_unregister` in Server/Projects.
use remo_broker.Base.{
  ℕ, ◌≡◌, ◌≢◌, ◌==◌, refl, sym, ap, ◌∙◌, subst, none, some, Text, same, same_iff, inl, inr, arith,
  Bool-cases,
}
use remo_broker.Base.Map.{lookup, insert, lookup-insert, is_some}
use remo_broker.Registry.{Project, socket_path_for}
use remo_broker.Registry.Disk.{Faults, remove_file}
use remo_broker.Registry.Errors.{lookup-remove_file_ne}
use remo_broker.Registry.Invariant.{IsConsistent}
use remo_broker.Registry.Names.{socket_path_for_injective}
use remo_broker.Server.Concurrent.{set_at}
use remo_broker.Server.Projects.{idle, keeping, unlinking, subject, System}
use remo_broker.Server.Projects.Agreement.{IsAgreed, Holds, IsJob, Holds-other, set_at-IsFree}
use remo_broker.Server.Projects.Unregistering.{busy}

-- `dispatch_register` keeps the handle, and answers.
module _ (t : System) (c : ℕ) (name : Text) (id : ℕ) (v : IsAgreed t)
    (e : t.stages c ≡ keeping name id) where
  with_handle : System
  with_handle = record t {
    project_tasks = insert name id t.project_tasks;
    stages = set_at t.stages c idle;
  }

  mine : (lookup name t.arcs ≡ some id) × (lookup name t.project_tasks ≡ none)
  mine = subst (Holds t) e (v.holds c)

  kept-Holds : (d : ℕ) → Holds with_handle (with_handle.stages d)
  unfolding with_handle
  kept-Holds d = elim (Bool-cases (d == c)) [
    | inl this ↦ rw this tt
    | inr that ↦ rw that (
        Holds-other t with_handle refl (λ id lt. (refl, lt)) (t.stages d)
          (λ n q. (
            refl,
            ground (
              arith,
              lookup-insert name n id t.project_tasks,
              same_iff name n,
              v.exclusive c d n,
            ),
          ))
          (v.holds d))
  ]

  pub kept-IsAgreed :
      IsAgreed (record t {
        project_tasks = insert name id t.project_tasks;
        stages = set_at t.stages c idle;
      })
  unfolding with_handle
  kept-IsAgreed = record {
    consistent = v.consistent;
    arcs = v.arcs;
    owned = v.owned;
    holds = kept-Holds;
    tracked = λ n free. elim (Bool-cases (same name n)) [
      | inl this ↦ ground (arith, mine, same_iff name n, lookup-insert name n id t.project_tasks)
      | inr that ↦
          let apart : subject (t.stages c) ≢ some n = λ q. ground (arith, same_iff name n) in
          let old = v.tracked n (set_at-IsFree t.stages c idle n apart free) in
          ground (arith, lookup-insert name n id t.project_tasks)
    ];
    exclusive = λ d f n x y. ground (arith, v.exclusive d f n);
    accounted = λ i live. elim (v.accounted i live) [
      | inl at ↦ inl at
      | inr (d, q) ↦ inr (d, ground arith)
    ];
  }

-- `dispatch_unregister` removes the socket, and answers.
module _ (t : System) (c : ℕ) (faults : Faults) (name : Text) (id : ℕ) (p : Project)
    (v : IsAgreed t) (e : t.stages c ≡ unlinking name id p) where
  without_file : System
  without_file = record t {
    sockets = (remove_file faults p.socket_path t.sockets).1;
    stages = set_at t.stages c idle;
  }

  job : (lookup name t.project_tasks ≡ none) × IsJob t name id p
  job = busy t c name id p v e

  unlinked-IsConsistent : IsConsistent t.registry (remove_file faults p.socket_path t.sockets).1
  unlinked-IsConsistent = record {
    unique = v.consistent.unique;
    entries = λ j q at.
        let old = v.consistent.entries j q at in
        let apart : name ≢ j =
          λ x. let y = ap (λ k. is_some (lookup k t.arcs)) x in ground (arith, v.arcs j, job) in
        record {
          named = old.named;
          safe = old.safe;
          manifest_named = old.manifest_named;
          at_path = old.at_path;
          mode =
              lookup-remove_file_ne faults p.socket_path t.sockets
                (socket_path_for t.registry.socket_dir j)
                (λ x. apart (
                  socket_path_for_injective t.registry.socket_dir name j job.1.4 old.safe
                    (sym job.1.3 ∙ x)))
              ∙ old.mode;
        };
  }

  unlinked-Holds : (d : ℕ) → Holds without_file (without_file.stages d)
  unfolding without_file
  unlinked-Holds d = elim (Bool-cases (d == c)) [
    | inl this ↦ rw this tt
    | inr that ↦ rw that (
        Holds-other t without_file refl (λ id lt. (refl, lt)) (t.stages d) (λ n q. (refl, refl))
          (v.holds d))
  ]

  pub unlinked-IsAgreed : IsAgreed (record t {
    sockets = (remove_file faults p.socket_path t.sockets).1;
    stages = set_at t.stages c idle;
  })
  unfolding without_file
  unlinked-IsAgreed = record {
    consistent = unlinked-IsConsistent;
    arcs = v.arcs;
    owned = v.owned;
    holds = unlinked-Holds;
    tracked = λ n free. elim (Bool-cases (same name n)) [
      | inl this ↦ ground (arith, job, same_iff name n)
      | inr that ↦
          let apart : subject (t.stages c) ≢ some n = λ q. ground (arith, same_iff name n) in
          v.tracked n (set_at-IsFree t.stages c idle n apart free)
    ];
    exclusive = λ d f n x y. ground (arith, v.exclusive d f n);
    accounted = λ i live. elim (v.accounted i live) [
      | inl at ↦ inl at
      | inr (d, q) ↦ inr (d, ground arith)
    ];
  }
