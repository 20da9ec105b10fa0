-- ===== src/Server/Projects/Agreement.antt =====
-- What the registry, the accept loops and the sockets of Server/Projects agree on, in every run in
-- which no two requests about one name overlap.
use remo_broker.Base.{
  ℕ, ◌≡◌, ◌≢◌, ◌<◌, ◌==◌, refl, sym, ap, ◌∙◌, Option, none, some, Bool, true, false, Text, ◌⊎◌, inl,
  inr, arith, Bool-cases,
}
use remo_broker.Base.Map.{lookup, is_some}
use remo_broker.Manifest.Names.{IsProjectName}
use remo_broker.Registry.{CacheDefaults, Project, socket_path_for}
use remo_broker.Registry.Disk.{Sockets}
use remo_broker.Registry.Invariant.{IsConsistent, new-IsConsistent}
use remo_broker.Server.Accept.Signals.{is_unsignalled}
use remo_broker.Server.Concurrent.{set_at}
use remo_broker.Server.Projects.{
  Life, spawned, looping, over, Stage, idle, keeping, telling, taking, awaiting, unlinking, subject,
  System, IsFree, just_started,
}

-- The loop accepts, and nothing has told it to stop.
abbrev pub is_running : Life → Bool
is_running spawned = true
is_running (looping phase) = is_unsignalled phase
is_running over = false

abbrev pub is_live : Life → Bool
is_live spawned = true
is_live (looping phase) = true
is_live over = false

-- The loop that a request in progress has still to see ended.
abbrev pub held : Stage → Option ℕ
held idle = none
held (keeping name id) = none
held (telling name id p) = some id
held (taking name id p) = some id
held (awaiting name id p handle) = some id
held (unlinking name id p) = none

-- What an unregister in progress knows of its project.
abbrev pub IsJob : System → Text → ℕ → Project → Type 0
IsJob t name id p =
    (lookup name t.arcs ≡ none)
    × ((t.loops id).name ≡ name)
    × (id < t.next)
    × (p.socket_path ≡ socket_path_for t.registry.socket_dir name)
    × IsProjectName name

-- What a request in progress can rely on.
abbrev pub Holds : System → Stage → Type 0
Holds t idle = Unit
Holds t (keeping name id) = (lookup name t.arcs ≡ some id) × (lookup name t.project_tasks ≡ none)
Holds t (telling name id p) = (lookup name t.project_tasks ≡ some id) × IsJob t name id p
Holds t (taking name id p) = (lookup name t.project_tasks ≡ some id) × IsJob t name id p
Holds t (awaiting name id p handle) =
    (lookup name t.project_tasks ≡ none) × (handle ≡ some id) × IsJob t name id p
Holds t (unlinking name id p) = (lookup name t.project_tasks ≡ none) × IsJob t name id p

abbrev pub IsOwned : System → Text → ℕ → Type 0
IsOwned t name id =
    ((t.loops id).name ≡ name) × (is_running (t.loops id).life ≡ true) × (id < t.next)

-- Between requests, each registered project has its own running loop, whose handle is kept, and
-- its socket; every loop that lives is that of a registered project, or is being ended.
pub record IsAgreed (t : System) : Type 0 where
  pub consistent : IsConsistent t.registry t.sockets
  pub arcs : (name : Text) → is_some (lookup name t.arcs) ≡ is_some (lookup name t.registry.inner)
  pub owned : (name : Text) (id : ℕ) → lookup name t.arcs ≡ some id → IsOwned t name id
  pub holds : (c : ℕ) → Holds t (t.stages c)
  pub tracked : (name : Text) → IsFree t name → lookup name t.project_tasks ≡ lookup name t.arcs
  pub exclusive :
      (c d : ℕ) (name : Text)
      → subject (t.stages c) ≡ some name
      → subject (t.stages d) ≡ some name
      → c ≡ d
  pub accounted :
      (id : ℕ)
      → is_live (t.loops id).life ≡ true
      → (lookup (t.loops id).name t.arcs ≡ some id) ⊎ ((c : ℕ) × (held (t.stages c) ≡ some id))

pub just_started-IsAgreed :
    (socket_dir : Text) (defaults : CacheDefaults) (sockets : Sockets)
    → IsAgreed (just_started socket_dir defaults sockets)
unfolding lookup
just_started-IsAgreed socket_dir defaults sockets = record {
  consistent = new-IsConsistent socket_dir defaults sockets;
  arcs = λ n. refl;
  owned = λ n id at. absurd (ground arith);
  holds = λ c. tt;
  tracked = λ n free. refl;
  exclusive = λ c d n x y. absurd (ground arith);
  accounted = λ id live. absurd (ground arith);
}

-- The stages after one of them changes.
module _ (st : ℕ → Stage) (c : ℕ) (new : Stage) where
  pub set_at-subject :
      subject new ≡ subject (st c) → (d : ℕ) → subject (set_at st c new d) ≡ subject (st d)
  set_at-subject e d = elim (Bool-cases (d == c)) [
    | inl this ↦ let q : d ≡ c = ground arith in rw this (e ∙ ap (λ i. subject (st i)) (sym q))
    | inr that ↦ rw that refl
  ]

  -- What is free afterwards was free before, unless it is what the request was about.
  pub set_at-IsFree :
      (name : Text)
      → subject (st c) ≢ some name
      → ((d : ℕ) → subject (set_at st c new d) ≢ some name)
      → (d : ℕ) → subject (st d) ≢ some name
  set_at-IsFree name apart free d = elim (Bool-cases (d == c)) [
    | inl this ↦ λ e. let q : d ≡ c = ground arith in apart (ap (λ i. subject (st i)) (sym q) ∙ e)
    | inr that ↦ λ e. free d (rw that e)
  ]

-- What a request in progress relies on is its own name's.
module _ (t u : System) (dir : u.registry.socket_dir ≡ t.registry.socket_dir)
    (loops : (id : ℕ) → id < t.next → ((u.loops id).name ≡ (t.loops id).name) × (id < u.next)) where
  pub Holds-other :
      (stage : Stage)
      → ((n : Text)
          → subject stage ≡ some n
          → (lookup n u.arcs ≡ lookup n t.arcs)
            × (lookup n u.project_tasks ≡ lookup n t.project_tasks))
      → Holds t stage
      → Holds u stage
  Holds-other idle same_name h = tt
  Holds-other (keeping n id) same_name h = ground (arith, same_name n refl)
  Holds-other (telling n id q) same_name h = ground (arith, dir, loops id, same_name n refl)
  Holds-other (taking n id q) same_name h = ground (arith, dir, loops id, same_name n refl)
  Holds-other (awaiting n id q handle) same_name h = ground (arith, dir, loops id, same_name n refl)
  Holds-other (unlinking n id q) same_name h = ground (arith, dir, loops id, same_name n refl)
