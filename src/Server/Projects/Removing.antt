-- ===== src/Server/Projects/Removing.antt =====
-- The step of `dispatch_unregister` in Server/Projects that takes the project out of the registry.
use remo_broker.Base.{
  ℕ, ◌≡◌, ◌==◌, refl, ap, ◌∙◌, some, Text, same, same_iff, same_refl, ok, inl, inr, arith,
  Bool-cases, Option-cases,
}
use remo_broker.Base.Map.{lookup, remove, lookup-remove}
use remo_broker.Registry.{Project, ProjectRegistry, unregister}
use remo_broker.Registry.Invariant.{IsConsistent}
use remo_broker.Base.Map.{remove-IsUnique}
use remo_broker.Server.Concurrent.{set_at}
use remo_broker.Server.Projects.{idle, telling, System, IsFree}
use remo_broker.Server.Projects.Agreement.{IsAgreed, Holds, Holds-other, set_at-IsFree}

-- `dispatch_unregister` takes the project out of the registry.
module _ (t : System) (c : ℕ) (name : Text) (id : ℕ) (p : Project) (reg : ProjectRegistry)
    (v : IsAgreed t) (free : IsFree t name) (idles : t.stages c ≡ idle)
    (at : lookup name t.arcs ≡ some id) (done : unregister t.registry name ≡ (ok p, reg)) where
  without_project : System
  without_project = record t {
    registry = reg;
    arcs = remove name t.arcs;
    stages = set_at t.stages c (telling name id p);
  }

  registry_is :
      (lookup name t.registry.inner ≡ some p)
      × (reg ≡ record t.registry { inner = remove name t.registry.inner })
  unfolding unregister
  registry_is = elim (Option-cases (lookup name t.registry.inner)) [
    | inl q ↦ absurd (ground arith)
    | inr (o, q) ↦ (ground arith, ground arith)
  ]

  removed-IsConsistent : IsConsistent reg t.sockets
  removed-IsConsistent = rw (registry_is.1) (record {
    unique = remove-IsUnique name t.registry.inner v.consistent.unique;
    entries = λ j q there.
        let old =
          v.consistent.entries j q (ground (arith, lookup-remove name j t.registry.inner)) in
        record {
          named = old.named;
          safe = old.safe;
          manifest_named = old.manifest_named;
          at_path = old.at_path;
          mode = old.mode;
        };
  })

  dir : reg.socket_dir ≡ t.registry.socket_dir
  dir = ap (λ r. r.socket_dir) registry_is.1

  removed-Holds : (d : ℕ) → Holds without_project (without_project.stages d)
  unfolding without_project
  removed-Holds d = elim (Bool-cases (d == c)) [
    | inl this ↦
        let r = v.consistent.entries name p registry_is.0 in
        rw this (
          v.tracked name free ∙ at,
          (
            rw (lookup-remove, same_refl name) refl,
            (v.owned name id at).0,
            (v.owned name id at).2,
            rw dir r.at_path,
            r.safe,
          ),
        )
    | inr that ↦ rw that (
        Holds-other t without_project dir (λ id lt. (refl, lt)) (t.stages d)
          (λ n q. (ground (arith, lookup-remove name n t.arcs, same_iff name n, free d), refl))
          (v.holds d))
  ]

  pub removed-IsAgreed : IsAgreed (record t {
    registry = reg;
    arcs = remove name t.arcs;
    stages = set_at t.stages c (telling name id p);
  })
  unfolding without_project
  removed-IsAgreed = record {
    consistent = removed-IsConsistent;
    arcs = λ n. ground (
      arith,
      registry_is,
      v.arcs n,
      lookup-remove name n t.arcs,
      lookup-remove name n t.registry.inner,
    );
    owned = λ n i q. v.owned n i (ground (arith, lookup-remove name n t.arcs));
    holds = removed-Holds;
    tracked = λ n h. elim (Bool-cases (same name n)) [
      | inl this ↦ absurd (h c (ground (arith, same_iff name n)))
      | inr that ↦
          let old =
            v.tracked n
              (set_at-IsFree t.stages c (telling name id p) n (rw idles (ground arith)) h) in
          ground (arith, lookup-remove name n t.arcs)
    ];
    exclusive = λ d f n x y. ground (arith, free d, free f, v.exclusive d f n);
    accounted = λ i live. elim (v.accounted i live) [
      | inl q ↦ elim (Bool-cases (same name (t.loops i).name)) [
        | inl this ↦
            let e = ap (λ k. lookup k t.arcs) ((same_iff name (t.loops i).name).0 this) in
            inr (c, ground arith)
        | inr that ↦ inl (ground (arith, lookup-remove name (t.loops i).name t.arcs))
      ]
      | inr (d, q) ↦ inr (d, ground arith)
    ];
  }
