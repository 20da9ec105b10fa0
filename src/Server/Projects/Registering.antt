-- ===== src/Server/Projects/Registering.antt =====
-- The steps of `dispatch_register` in Server/Projects that bind the socket and add the project.
use remo_broker.Base.{
  ℕ, ◌≡◌, ◌≢◌, ◌==◌, refl, sym, ap, ◌∙◌, subst, none, some, true, Text, same, same_iff, same_refl,
  Result, ok, err, ◌⊎◌, inl, inr, arith, Bool-cases,
}
use remo_broker.Base.Map.{lookup, lookup-insert, is_some}
use remo_broker.Registry.{Project, ProjectRegistry, RegistryError, register, insert_project}
use remo_broker.Registry.Disk.{Sockets}
use remo_broker.Registry.Effects.{IsAdded, register_sound}
use remo_broker.Registry.Invariant.{IsConsistent, register-IsConsistent}
use remo_broker.Server.Admin.{Outside}
use remo_broker.Server.Admin.Serving.{register_failed}
use remo_broker.Server.Projects.{Stage, idle, keeping, subject, System, registers, IsFree}
use remo_broker.Server.Projects.Agreement.{
  IsAgreed, Holds, IsOwned, held, is_live, Holds-other, set_at-IsFree,
}

socket_dir-register :
    (o : Outside) (reg : ProjectRegistry) (name path : Text) (s : Sockets)
    → (register o.files o.faults reg name path s).1.socket_dir ≡ reg.socket_dir
unfolding register insert_project
socket_dir-register o reg name path s = ground arith

module _ (t : System) (c : ℕ) (name : Text) (v : IsAgreed t) (idles : t.stages c ≡ idle)
    (free : IsFree t name) where
  module _ (p : Project) (reg : ProjectRegistry) (s : Sockets) (named : p.name ≡ name)
      (added : IsAdded t.registry reg s p) (dir : reg.socket_dir ≡ t.registry.socket_dir) where
    u : System
    u = registers c name reg s t

    absent : lookup name t.arcs ≡ none
    absent = ground (arith, v.arcs name, added.was_absent)

    owned : (n : Text) (id : ℕ) → lookup n u.arcs ≡ some id → IsOwned u n id
    unfolding u
    owned n id at =
        ground (arith, lookup-insert name n t.next t.arcs, same_iff name n, v.owned n id)

    others : (stage : Stage) → subject stage ≢ some name → Holds t stage → Holds u stage
    unfolding u
    others stage apart =
        Holds-other t u dir (λ id lt. ground arith) stage
          λ n e. (ground (arith, lookup-insert name n t.next t.arcs, same_iff name n), refl)

    holds : (d : ℕ) → Holds u (u.stages d)
    unfolding u
    holds d = elim (Bool-cases (d == c)) [
      | inl this ↦ rw this (rw (lookup-insert, same_refl name) refl, v.tracked name free ∙ absent)
      | inr that ↦ rw that (others (t.stages d) (free d) (v.holds d))
    ]

    arcs : (n : Text) → is_some (lookup n u.arcs) ≡ is_some (lookup n u.registry.inner)
    unfolding u
    arcs n = elim (Bool-cases (same name n)) [
      | inl this ↦
          let e : p.name ≡ n = ground (arith, same_iff name n) in
          let now : lookup n reg.inner ≡ some p =
            subst (λ k. lookup k reg.inner ≡ some p) e added.is_now in
          ground (arith, lookup-insert name n t.next t.arcs)
      | inr that ↦ ground (
        arith,
        lookup-insert name n t.next t.arcs,
        same_iff name n,
        added.others n (λ e. ground (arith, same_iff name n)),
        v.arcs n,
      )
    ]

    tracked : (n : Text) → IsFree u n → lookup n u.project_tasks ≡ lookup n u.arcs
    unfolding u
    tracked n h = elim (Bool-cases (same name n)) [
      | inl this ↦ absurd (h c (ground (arith, same_iff name n)))
      | inr that ↦
          let e =
            v.tracked n
              (set_at-IsFree t.stages c (keeping name t.next) n (rw idles (ground arith)) h) in
          ground (arith, lookup-insert name n t.next t.arcs)
    ]

    exclusive :
        (d e : ℕ) (n : Text) → subject (u.stages d) ≡ some n → subject (u.stages e) ≡ some n → d ≡ e
    unfolding u
    exclusive d e n x y = ground (arith, free d, free e, v.exclusive d e n)

    accounted :
        (id : ℕ)
        → is_live (u.loops id).life ≡ true
        → (lookup (u.loops id).name u.arcs ≡ some id) ⊎ ((d : ℕ) × (held (u.stages d) ≡ some id))
    unfolding u
    accounted id live = elim (Bool-cases (id == t.next)) [
      | inl this ↦ rw this (inl (rw (lookup-insert, same_refl name) (ground arith)))
      | inr that ↦ elim (v.accounted id (ground arith)) [
        | inl at ↦
            let apart : name ≢ (t.loops id).name =
              λ e. cc (absent, at, ap (λ k. lookup k t.arcs) e) in
            rw that (
              inl (
                ground (
                  arith,
                  lookup-insert name (t.loops id).name t.next t.arcs,
                  same_iff name (t.loops id).name,
                )))
        | inr (d, q) ↦ inr (d, ground arith)
      ]
    ]

    registered-IsAgreed : IsConsistent reg s → IsAgreed u
    unfolding u
    registered-IsAgreed kept = record {
      consistent = kept;
      arcs = arcs;
      owned = owned;
      holds = holds;
      tracked = tracked;
      exclusive = exclusive;
      accounted = accounted;
    }

  module _ (o : Outside) (path : Text) (reg : ProjectRegistry) (s : Sockets) where
    abbrev ResultIs : Result RegistryError Project → Type 0
    ResultIs r = register o.files o.faults t.registry name path t.sockets ≡ (r, reg, s)

    consistent : (r : Result RegistryError Project) → ResultIs r → IsConsistent reg s
    consistent r e =
        subst (λ x. IsConsistent x.1 x.2) e
          (register-IsConsistent o.files o.faults t.registry name path t.sockets v.consistent)

    pub register_ok-IsAgreed : (p : Project) → ResultIs (ok p) → IsAgreed (registers c name reg s t)
    unfolding u
    register_ok-IsAgreed p e =
        let x =
          register_sound o.files o.faults t.registry name path p t.sockets (ap (λ x. x.0) e) in
        let y : (p.name ≡ name) × IsAdded t.registry reg s p =
          subst (λ r. (p.name ≡ name) × IsAdded t.registry r.1 r.2 p) e x in
        registered-IsAgreed p reg s y.0 y.1
          (sym (ap (λ r. r.1.socket_dir) e) ∙ socket_dir-register o t.registry name path t.sockets)
          (consistent (ok p) e)

    pub register_err-IsAgreed :
        (e : RegistryError) → ResultIs (err e) → IsAgreed (record t { registry = reg; sockets = s })
    register_err-IsAgreed e q =
        let same_registry : reg ≡ t.registry =
          sym (ap (λ x. x.1) q)
          ∙ register_failed o.files o.faults t.registry name path t.sockets e (ap (λ x. x.0) q) in
        record {
          consistent = consistent (err e) q;
          arcs = λ n. rw same_registry (v.arcs n);
          owned = v.owned;
          holds = λ d.
              Holds-other t (record t { registry = reg; sockets = s })
                (ap (λ r. r.socket_dir) same_registry) (λ id lt. (refl, lt)) (t.stages d)
                (λ n e. (refl, refl)) (v.holds d);
          tracked = v.tracked;
          exclusive = v.exclusive;
          accounted = v.accounted;
        }
