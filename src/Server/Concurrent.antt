-- ===== src/Server/Concurrent.antt =====
-- src/server.rs and src/registry.rs with everything running at once: the `get` requests of all
-- connections, the reloads, the rotations, the registrations and removals. Projects are shared
-- (`Arc<Project>`): a project has an address, and a connection keeps the address of its project
-- also after the project was unregistered. A move is one access to shared state: a manifest load, a
-- call of a cache method, a session load, an audit record; moves of different tasks come in any
-- order.
pub mod Tasks
pub mod Provenance
pub mod Revocation
pub mod Alone
pub mod Audited
mod Examples
use remo_broker.Base.{
  ◌<◌, ℕ, ◌+◌, Bool, true, false, Option, none, some, List, [], ◌∷◌, Text, codes, contains, Result,
  ok, err, as_secs, saturate_u32, ◌==◌, if◌then◌else◌, ◌≡◌,
}
use remo_broker.Base.Map
use remo_broker.Base.Map.{Map, lookup, insert, remove}
use remo_broker.Cache
use remo_broker.Cache.{BoundedCache, CacheHit, set_config}
use remo_broker.Manifest.{Manifest, Files}
use remo_broker.Registry.{Project, CacheDefaults, resolve_cache_bounds, load_named}
use remo_broker.Audit
use remo_broker.Audit.{Channel, AuditWriter, Outcome, record_event}
use remo_broker.Proto
use remo_broker.Proto.{ProjectResponse, got, failed, error, utf8, denied}
use remo_broker.Server.{Peer}
use remo_broker.Server.Fetch.{
  Verdict, denial, allowance, fetch_event, denied_message, not_found_message, no_session_message,
  backend_message,
}

-- What the handler of one `get` knows from its start: its project's address, the name asked for,
-- the peer, and when the request was read.
pub record Request : Type 0 where
  pub address : ℕ
  pub name : Text
  pub peer : Peer
  pub start : ℕ

pub record Reply : Type 0 where
  pub request : Request
  pub response : ProjectResponse

-- Where a task stands: before each access of `dispatch_get`, and between the accesses of `reload`.
pub data Pc (F : Type 0) : Type 0 where
  idle : Pc F
  checked : Request → Pc F  -- the name is on the allowlist
  missed : Request → Pc F  -- not in the cache
  asking : Request → F → Pc F  -- waiting for the session's answer
  fetched : Request → Text → Pc F  -- before the insert
  inserted : Request → Text → Pc F  -- before the default time to live is read
  deciding : Request → ProjectResponse → Verdict → Pc F  -- before the audit record
  loaded : ℕ → Manifest → Pc F  -- a reload, before the cache's bounds are set
  bounded : ℕ → Manifest → Pc F  -- a reload, before the manifest is stored

-- The task may stand at an `await`, where an abort takes effect: an answer and its audit record are
-- decided and made without one.
abbrev pub is_abortable : {F : Type 0} → Pc F → Bool
is_abortable idle = false
is_abortable (deciding q r v) = false
is_abortable _ = true

abbrev pub set_at {ℓ} : {A : Type ℓ} → (ℕ → A) → ℕ → A → ℕ → A
set_at f i a j = if j == i then a else f j

module _ (c : Channel) (F : Type 0) where
  -- What the tasks share. `replies` records the answers that were given, newest first.
  pub record Memory : Type 0 where
    pub projects : ℕ → Project
    pub next : ℕ
    pub registered : Map ℕ
    pub cache_defaults : CacheDefaults
    pub backend : Option F
    pub audit : AuditWriter c.Tx
    pub replies : List Reply

  abbrev pub project_at : Memory → Request → Project
  project_at m q = m.projects q.address

  abbrev pub put : Memory → ℕ → Project → Memory
  put m p project = record m { projects = set_at m.projects p project }

  abbrev pub put_cache : Memory → ℕ → BoundedCache → Memory
  put_cache m p cache = put m p (record (m.projects p) { cache = cache })

  abbrev pub allowed : Memory → Request → Bool
  allowed m q = contains (project_at m q).manifest.allowlist.secrets q.name

  -- `emit_fetch`, and the answer to the client.
  abbrev pub reply : Memory → Request → ProjectResponse → Verdict → (at_emit timestamp : ℕ) → Memory
  reply m q r v at_emit timestamp = record m {
    audit =
        record_event c
          (fetch_event (project_at m q).name q.name q.peer
            (record {
              start = q.start;
              at_lookup = q.start;
              at_insert = q.start;
              at_emit = at_emit;
              timestamp = timestamp;
            })
            v)
          m.audit;
    replies = record { request = q; response = r } ∷ m.replies;
  }

  abbrev pub bounds_set : Memory → ℕ → Manifest → Memory
  bounds_set m p manifest =
      let (cache_max, cache_ttl) = resolve_cache_bounds manifest m.cache_defaults in
      put_cache m p (set_config cache_max cache_ttl (m.projects p).cache)

  -- All tasks, by number; a task that has not begun is idle.
  pub record System : Type 0 where
    pub mem : Memory
    pub pc : ℕ → Pc F

  -- What the backend may answer, session by session, is the argument `says`.
  module _ (says : F → Text → Result Text (Option Text) → Type 0) where
    pub data Move (m : Memory) : Pc F → Memory → Pc F → Type 0 where
      admit : {q : Request} → q.address < m.next → allowed m q ≡ true → Move m idle m (checked q)
      refuse :
          {q : Request}
          → q.address < m.next
          → allowed m q ≡ false
          → Move m idle m (deciding q (failed (error denied (denied_message q.name))) denial)
      hit :
          {q : Request} (now : ℕ) {h : CacheHit} {cache : BoundedCache}
          → Cache.get q.name now (project_at m q).cache ≡ (some h, cache)
          → Move m (checked q) (put_cache m q.address cache) (
              deciding q
                (got (utf8 h.value h.ttl_seconds))
                (allowance Outcome.ok (some (codes "cache"))))
      miss :
          {q : Request} (now : ℕ) {cache : BoundedCache}
          → Cache.get q.name now (project_at m q).cache ≡ (none, cache)
          → Move m (checked q) (put_cache m q.address cache) (missed q)
      no_session :
          {q : Request}
          → m.backend ≡ none
          → Move m (missed q) m (
              deciding q
                (failed (error Proto.backend_error no_session_message))
                (allowance Outcome.backend_error none))
      ask : {q : Request} {f : F} → m.backend ≡ some f → Move m (missed q) m (asking q f)
      answer :
          {q : Request} {f : F} {v : Text}
          → says f q.name (ok (some v))
          → Move m (asking q f) m (fetched q v)
      absent :
          {q : Request} {f : F}
          → says f q.name (ok none)
          → Move m (asking q f) m (
              deciding q
                (failed (error Proto.not_found (not_found_message q.name)))
                (allowance Outcome.not_found (some (codes "fnox"))))
      fail :
          {q : Request} {f : F} {msg : Text}
          → says f q.name (err msg)
          → Move m (asking q f) m (
              deciding q
                (failed (error Proto.backend_error (backend_message msg)))
                (allowance Outcome.backend_error (some (codes "fnox"))))
      store :
          {q : Request} {v : Text} (now : ℕ)
          → Move m
              (fetched q v)
              (put_cache m q.address (Cache.insert q.name v none now (project_at m q).cache))
              (inserted q v)
      read_ttl :
          {q : Request} {v : Text}
          → Move m (inserted q v) m (
              deciding q
                (got (utf8 v (saturate_u32 (as_secs (project_at m q).cache.default_ttl))))
                (allowance Outcome.ok (some (codes "fnox"))))
      emit :
          {q : Request} {r : ProjectResponse} {v : Verdict} (at_emit timestamp : ℕ)
          → Move m (deciding q r v) (reply m q r v at_emit timestamp) idle
      -- `reload`: the project is found under the read lock, and its manifest read from disk.
      load :
          (fs : Files) (name path : Text) {p : ℕ} {manifest : Manifest}
          → lookup name m.registered ≡ some p
          → load_named fs name (m.projects p).project_path ≡ ok (manifest, path)
          → Move m idle m (loaded p manifest)
      bound :
          {p : ℕ} {manifest : Manifest}
          → Move m (loaded p manifest) (bounds_set m p manifest) (bounded p manifest)
      swap :
          {p : ℕ} {manifest : Manifest}
          → Move m
              (bounded p manifest)
              (put m p (record (m.projects p) { manifest = manifest }))
              idle

    -- A task moves, or it is aborted with its connection and leaves what it has done; or the registry
    -- changes: a project is added at a new address with an empty cache, or forgotten; or the session
    -- is replaced.
    pub data Step (s : System) : System → Type 0 where
      move :
          (i : ℕ) {m : Memory} {p : Pc F}
          → Move s.mem (s.pc i) m p
          → Step s (record { mem = m; pc = set_at s.pc i p })
      abort : (i : ℕ) → is_abortable (s.pc i) ≡ true → Step s (record s { pc = set_at s.pc i idle })
      add :
          (name : Text) (project : Project)
          → project.cache.map ≡ []
          → lookup name s.mem.registered ≡ none
          → Step s (record s {
            mem = record s.mem {
              projects = set_at s.mem.projects s.mem.next project;
              next = s.mem.next + 1;
              registered = insert name s.mem.next s.mem.registered;
            };
          })
      forget :
          (name : Text)
          → Step s (record s { mem = record s.mem { registered = remove name s.mem.registered } })
      rotate :
          (old new : F)
          → s.mem.backend ≡ some old
          → Step s (record s { mem = record s.mem { backend = some new } })

    pub data Reach (s : System) : System → Type 0 where
      here : Reach s s
      later : {t u : System} → Reach s t → Step t u → Reach s u
