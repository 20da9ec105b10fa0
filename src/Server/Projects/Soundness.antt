-- ===== src/Server/Projects/Soundness.antt =====
-- Runs of Server/Projects in which no two requests about one name overlap.
use remo_broker.Base.{ℕ, ◌≡◌, ap, ◌∙◌, some, true, Text, ◌⊎◌, inl, inr, arith, Option-cases}
use remo_broker.Base.Map.{lookup}
use remo_broker.Registry.Disk.{Sockets}
use remo_broker.Registry.{CacheDefaults, Project, socket_path_for}
use remo_broker.Server.Projects.{
  System, Step, registered, refused, kept, removed, notified, took, untracked, joined, aborted,
  unlinked, moved, IsFree, Begins, Orderly, here, later, just_started,
}
use remo_broker.Server.Projects.Agreement.{
  just_started-IsAgreed, IsAgreed, is_live, is_running, held,
}
use remo_broker.Server.Projects.Registering.{register_ok-IsAgreed, register_err-IsAgreed}
use remo_broker.Server.Projects.Unregistering.{
  notified-IsAgreed, took-IsAgreed, joined-IsAgreed, aborted-IsAgreed, untracked_never,
  moved-IsAgreed,
}
use remo_broker.Server.Projects.Removing.{removed-IsAgreed}
use remo_broker.Server.Projects.Finishing.{kept-IsAgreed, unlinked-IsAgreed}

Step-IsAgreed : {t u : System} (st : Step t u) → Begins st → IsAgreed t → IsAgreed u
Step-IsAgreed {t} (registered c o name path p reg s i e) free v =
    register_ok-IsAgreed t c name v i free o path reg s p e
Step-IsAgreed {t} (refused c o name path e reg s i q) free v =
    register_err-IsAgreed t c name v i free o path reg s e q
Step-IsAgreed {t} (kept c name id q) free v = kept-IsAgreed t c name id v q
Step-IsAgreed {t} (removed c name id p reg i at e) free v =
    removed-IsAgreed t c name id p reg v free i at e
Step-IsAgreed {t} (notified c name id p q) free v = notified-IsAgreed t c name id p v q
Step-IsAgreed {t} (took c name id p q) free v = took-IsAgreed t c name id p v q
Step-IsAgreed {t} (untracked c name id p q) free v = absurd (untracked_never t c name id p v q)
Step-IsAgreed {t} (joined c name id p handle q ended) free v =
    joined-IsAgreed t c name id p v handle q ended
Step-IsAgreed {t} (aborted c name id p handle q) free v = aborted-IsAgreed t c name id p v handle q
Step-IsAgreed {t} (unlinked c faults name id p q) free v =
    unlinked-IsAgreed t c faults name id p v q
Step-IsAgreed {t} (moved id life m) free v = moved-IsAgreed t id life m v

-- A registered project that no request is about: its loop runs, its handle is kept, and its
-- socket is on disk with mode 0660.
pub record IsServed (t : System) (name : Text) (p : Project) : Type 0 where
  pub loop : ℕ
  pub arc : lookup name t.arcs ≡ some loop
  pub handle : lookup name t.project_tasks ≡ some loop
  pub named : (t.loops loop).name ≡ name
  pub runs : is_running (t.loops loop).life ≡ true
  pub at_path : p.socket_path ≡ socket_path_for t.registry.socket_dir name
  pub socket : lookup p.socket_path t.sockets ≡ some 0o660

IsAgreed-IsServed :
    (t : System) (name : Text) (p : Project)
    → IsAgreed t
    → IsFree t name
    → lookup name t.registry.inner ≡ some p
    → IsServed t name p
IsAgreed-IsServed t name p v free at = elim (Option-cases (lookup name t.arcs)) [
  | inl q ↦ absurd (ground (arith, v.arcs name))
  | inr (id, q) ↦
      let r = v.consistent.entries name p at in
      let o = v.owned name id q in
      record {
        loop = id;
        arc = q;
        handle = v.tracked name free ∙ q;
        named = o.0;
        runs = o.1;
        at_path = r.at_path;
        socket = ap (λ k. lookup k t.sockets) r.at_path ∙ r.mode;
      }
]

pub Orderly-IsAgreed : {s t : System} → IsAgreed s → Orderly s t → IsAgreed t
Orderly-IsAgreed v here = v
Orderly-IsAgreed v (later r st b) = Step-IsAgreed st b (Orderly-IsAgreed v r)

-- However the register and unregister requests of any number of admin connections of a daemon
-- interleave with each other and with the accept loops: where no two requests about one name have
-- overlapped, each registered project that no request in progress is about has its own running
-- accept loop, whose handle is kept, and its socket with mode 0660.
pub Orderly-IsServed :
    (socket_dir : Text) (defaults : CacheDefaults) (sockets : Sockets) {t : System} (name : Text)
    (p : Project)
    → Orderly (just_started socket_dir defaults sockets) t
    → IsFree t name
    → lookup name t.registry.inner ≡ some p
    → IsServed t name p
Orderly-IsServed socket_dir defaults sockets {t = t} name p r free at =
    let v = Orderly-IsAgreed (just_started-IsAgreed socket_dir defaults sockets) r in
    IsAgreed-IsServed t name p v free at

-- In the same runs no accept loop is forgotten: each that lives is the loop of the project that is
-- registered under its name, or one that an unregister in progress is still to see ended.
pub Orderly-accounted :
    (socket_dir : Text) (defaults : CacheDefaults) (sockets : Sockets) {t : System} (id : ℕ)
    → Orderly (just_started socket_dir defaults sockets) t
    → is_live (t.loops id).life ≡ true
    → (lookup (t.loops id).name t.arcs ≡ some id) ⊎ ((c : ℕ) × (held (t.stages c) ≡ some id))
Orderly-accounted socket_dir defaults sockets id r live =
    (Orderly-IsAgreed (just_started-IsAgreed socket_dir defaults sockets) r).accounted id live
