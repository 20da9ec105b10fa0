-- ===== src/Server/Projects.antt =====
-- `dispatch_register` and `dispatch_unregister` of src/server.rs on several admin connections at
-- once. The registry's lock and that of `project_tasks` are taken one after the other, so the
-- requests of two connections interleave; a step is what happens under one lock, one system call,
-- or a move of an accept loop (Server/Accept). A
-- registration reads the manifest before it takes the lock; the files that it reads are an argument
-- of its first step, so when it reads them does not matter. The runs are those of a daemon that has
-- not begun to shut down: `drain_project_loops`, which then tells every registered project's loop
-- to stop, is in Server/Shutdown and Server/Drain.
mod Agreement
mod Registering
mod Advancing
mod Unregistering
mod Removing
mod Finishing
mod Soundness
mod Signals
mod Ending
mod Forgotten
mod Races
mod Samples
mod Examples
use remo_broker.Base.{ℕ, ◌≡◌, ◌≢◌, Option, none, some, [], false, Text, ok, err, ◌+◌}
use remo_broker.Base.Map.{Map, lookup, insert, remove}
use remo_broker.Registry
use remo_broker.Registry.{
  CacheDefaults, Project, ProjectRegistry, RegistryError, register, unregister,
}
use remo_broker.Registry.Disk.{Sockets, Faults, remove_file}
use remo_broker.Server.Admin.{Outside}
use remo_broker.Server.Accept
use remo_broker.Server.Accept.{Phase, created, stopped, Turn}
use remo_broker.Server.Concurrent.{set_at}

-- The task of `run_project_socket`. It has no future that hears a signal before it first runs.
pub data Life : Type 0 where
  spawned : Life
  looping : Phase → Life
  over : Life

pub record LoopTask : Type 0 where
  pub name : Text
  pub life : Life

-- `project.stop.notify_waiters()`
abbrev pub told : Life → Life
told spawned = spawned
told (looping phase) = looping (Accept.notified phase)
told over = over

-- What the task does by itself; past its loop it waits for its connections, and ends.
pub data Advance : Life → Life → Type 0 where
  start : Advance spawned (looping (created false))
  turn : {p q : Phase} {m n : ℕ} → Turn p m q n → Advance (looping p) (looping q)
  finish : Advance (looping stopped) over

-- Where an admin connection stands in a request, with the name, the number of its `Arc<Project>`
-- (which is also that of its accept loop) and the project.
pub data Stage : Type 0 where
  idle : Stage
  -- `dispatch_register`: the project is registered and its loop spawned
  keeping : Text → ℕ → Stage
  -- `dispatch_unregister`: the project is out of the registry, its loop not yet told
  telling : Text → ℕ → Project → Stage
  taking : Text → ℕ → Project → Stage
  -- the handle that was found under the name
  awaiting : Text → ℕ → Project → Option ℕ → Stage
  unlinking : Text → ℕ → Project → Stage

-- The name that a request in progress is about.
abbrev pub subject : Stage → Option Text
subject idle = none
subject (keeping name id) = some name
subject (telling name id p) = some name
subject (taking name id p) = some name
subject (awaiting name id p handle) = some name
subject (unlinking name id p) = some name

-- `arcs` has the number of each registered project, `project_tasks` that of the loop whose handle
-- is kept.
pub record System : Type 0 where
  pub registry : ProjectRegistry
  pub sockets : Sockets
  pub arcs : Map ℕ
  pub project_tasks : Map ℕ
  pub loops : ℕ → LoopTask
  pub next : ℕ
  pub stages : ℕ → Stage

-- No project, no loop and no request, after `Server::new`.
abbrev pub just_started : Text → CacheDefaults → Sockets → System
just_started socket_dir defaults sockets = record {
  registry = Registry.new socket_dir defaults;
  sockets = sockets;
  arcs = [];
  project_tasks = [];
  loops = λ id. record { name = []; life = over };
  next = 0;
  stages = λ c. idle;
}

abbrev pub new_loop : Text → LoopTask
new_loop name = record { name = name; life = spawned }

-- The loop of this number is told, moved or aborted.
abbrev pub set_life : ℕ → Life → System → ℕ → LoopTask
set_life id life t = set_at t.loops id (record { name = (t.loops id).name; life = life })

-- What the steps of the connection `c` do. `registers`, `keeps`: the registry has bound the socket
-- and added the project, and the loop is spawned; its handle is kept.
module _ (c : ℕ) (name : Text) where
  abbrev pub registers : ProjectRegistry → Sockets → System → System
  registers reg s t = record t {
    registry = reg;
    sockets = s;
    arcs = insert name t.next t.arcs;
    loops = set_at t.loops t.next (new_loop name);
    next = t.next + 1;
    stages = set_at t.stages c (keeping name t.next);
  }

  abbrev pub keeps : ℕ → System → System
  keeps id t = record t {
    project_tasks = insert name id t.project_tasks;
    stages = set_at t.stages c idle;
  }

  module _ (id : ℕ) (p : Project) where
    abbrev pub removes : ProjectRegistry → System → System
    removes reg t = record t {
      registry = reg;
      arcs = remove name t.arcs;
      stages = set_at t.stages c (telling name id p);
    }

    abbrev pub notifies : System → System
    notifies t = record t {
      loops = set_life id (told (t.loops id).life) t;
      stages = set_at t.stages c (taking name id p);
    }

    abbrev pub takes : System → System
    takes t = record t {
      project_tasks = remove name t.project_tasks;
      stages = set_at t.stages c (awaiting name id p (lookup name t.project_tasks));
    }

    abbrev pub goes_on : System → System
    goes_on t = record t { stages = set_at t.stages c (unlinking name id p) }

    abbrev pub aborts : ℕ → System → System
    aborts handle t = record t {
      loops = set_life handle over t;
      stages = set_at t.stages c (unlinking name id p);
    }

    abbrev pub unlinks : Faults → System → System
    unlinks faults t = record t {
      sockets = (remove_file faults p.socket_path t.sockets).1;
      stages = set_at t.stages c idle;
    }

-- A step happens under one lock, or is one system call, or a move of a loop. That the registry
-- refuses a request is a step too: it may have touched the sockets.
pub data Step (t : System) : System → Type 0 where
  registered :
      (c : ℕ) (o : Outside) (name path : Text) (p : Project) (reg : ProjectRegistry) (s : Sockets)
      → t.stages c ≡ idle
      → register o.files o.faults t.registry name path t.sockets ≡ (ok p, reg, s)
      → Step t (registers c name reg s t)
  refused :
      (c : ℕ) (o : Outside) (name path : Text) (e : RegistryError) (reg : ProjectRegistry)
      (s : Sockets)
      → t.stages c ≡ idle
      → register o.files o.faults t.registry name path t.sockets ≡ (err e, reg, s)
      → Step t (record t { registry = reg; sockets = s })
  kept : (c : ℕ) (name : Text) (id : ℕ) → t.stages c ≡ keeping name id → Step t (keeps c name id t)
  removed :
      (c : ℕ) (name : Text) (id : ℕ) (p : Project) (reg : ProjectRegistry)
      → t.stages c ≡ idle
      → lookup name t.arcs ≡ some id
      → unregister t.registry name ≡ (ok p, reg)
      → Step t (removes c name id p reg t)
  notified :
      (c : ℕ) (name : Text) (id : ℕ) (p : Project)
      → t.stages c ≡ telling name id p
      → Step t (notifies c name id p t)
  took :
      (c : ℕ) (name : Text) (id : ℕ) (p : Project)
      → t.stages c ≡ taking name id p
      → Step t (takes c name id p t)
  untracked :
      (c : ℕ) (name : Text) (id : ℕ) (p : Project)
      → t.stages c ≡ awaiting name id p none
      → Step t (goes_on c name id p t)
  joined :
      (c : ℕ) (name : Text) (id : ℕ) (p : Project) (handle : ℕ)
      → t.stages c ≡ awaiting name id p (some handle)
      → (t.loops handle).life ≡ over
      → Step t (goes_on c name id p t)
  -- the limit `SHUTDOWN_DRAIN` has passed
  aborted :
      (c : ℕ) (name : Text) (id : ℕ) (p : Project) (handle : ℕ)
      → t.stages c ≡ awaiting name id p (some handle)
      → Step t (aborts c name id p handle t)
  unlinked :
      (c : ℕ) (faults : Faults) (name : Text) (id : ℕ) (p : Project)
      → t.stages c ≡ unlinking name id p
      → Step t (unlinks c name id p faults t)
  moved :
      (id : ℕ) (life : Life)
      → Advance (t.loops id).life life
      → Step t (record t { loops = set_life id life t })

pub data Reach (s : System) : System → Type 0 where
  here : Reach s s
  later : {t u : System} → Reach s t → Step t u → Reach s u

-- No connection is in the middle of a request about this name.
abbrev pub IsFree : System → Text → Type 0
IsFree t name = (c : ℕ) → subject (t.stages c) ≢ some name

-- What a step begins a request about.
abbrev pub Begins : {t u : System} → Step t u → Type 0
Begins {t} (registered c o name path p reg s i e) = IsFree t name
Begins {t} (refused c o name path e reg s i q) = IsFree t name
Begins (kept c name id q) = Unit
Begins {t} (removed c name id p reg i at e) = IsFree t name
Begins (notified c name id p q) = Unit
Begins (took c name id p q) = Unit
Begins (untracked c name id p q) = Unit
Begins (joined c name id p handle q ended) = Unit
Begins (aborted c name id p handle q) = Unit
Begins (unlinked c faults name id p q) = Unit
Begins (moved id life m) = Unit

-- A run in which no two requests about one name overlap. Those about different names may.
pub data Orderly (s : System) : System → Type 0 where
  here : Orderly s s
  later : {t u : System} → Orderly s t → (st : Step t u) → Begins st → Orderly s u
