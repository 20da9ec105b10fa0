-- ===== src/Server/Concurrent/Alone.antt =====
-- The moves of one `get` against `dispatch_get` of src/server.rs as one function (Server/Fetch).
use remo_broker.Base.{
  ℕ, ◌≡◌, Bool, true, false, Option, none, some, ◌∷◌, Text, codes, as_secs, saturate_u32, ◌==◌,
  contains, Result, ok, if◌then◌else◌,
}
use remo_broker.Cache
use remo_broker.Cache.{BoundedCache, CacheHit}
use remo_broker.Audit.{Channel, Outcome}
use remo_broker.Registry.{Project}
use remo_broker.Proto
use remo_broker.Proto.{ProjectResponse, got, utf8}
use remo_broker.Server.{Backend, Times}
use remo_broker.Server.Fetch.{Verdict, allowance, Plane, dispatch_get, emit_fetch}
use remo_broker.Server.Concurrent.{
  Request, Pc, idle, checked, missed, asking, fetched, inserted, deciding, loaded, bounded, Memory,
  Move,
}

-- The task works on the request.
abbrev IsAbout : {F : Type 0} → Request → Pc F → Type 0
IsAbout q (checked r) = r ≡ q
IsAbout q (deciding r a v) = r ≡ q
IsAbout q _ = ⊥

abbrev is_busy : {F : Type 0} → Pc F → Bool
is_busy idle = false
is_busy _ = true

module _ (c : Channel) (b : Backend) where
  -- The session's answer, where it is a function of the name.
  abbrev pub Says : b.Fnox → Text → Result Text (Option Text) → Type 0
  Says f n a = b.get f n ≡ a

  -- What one task does about one request while nothing else moves: from the first move on, until it
  -- is idle again.
  pub data Solo (m : Memory c b.Fnox) (q : Request) : Memory c b.Fnox → Pc b.Fnox → Type 0 where
    begins :
        {m' : Memory c b.Fnox} {a : Pc b.Fnox}
        → Move c b.Fnox Says m idle m' a
        → IsAbout q a
        → Solo m q m' a
    goes_on :
        {m' : Memory c b.Fnox} {a : Pc b.Fnox} {m'' : Memory c b.Fnox} {a' : Pc b.Fnox}
        → Solo m q m' a
        → is_busy a ≡ true
        → Move c b.Fnox Says m' a m'' a'
        → Solo m q m'' a'

  module _ (m : Memory c b.Fnox) (q : Request) where
    abbrev pub plane : Plane c
    plane = record { project = m.projects q.address; audit = m.audit }

    abbrev pub times : (at_lookup at_insert at_emit timestamp : ℕ) → Times
    times at_lookup at_insert at_emit timestamp = record {
      start = q.start;
      at_lookup = at_lookup;
      at_insert = at_insert;
      at_emit = at_emit;
      timestamp = timestamp;
    }

    abbrev pub out : (at_lookup at_insert at_emit timestamp : ℕ) → ProjectResponse × Plane c
    out at_lookup at_insert at_emit timestamp =
        dispatch_get c b m.backend q.name q.peer (times at_lookup at_insert at_emit timestamp) plane

    -- What the answer and the plane of `dispatch_get` make of the shared state.
    pub record IsServed (result : ProjectResponse × Plane c) (m' : Memory c b.Fnox) : Type 0 where
      pub answered : m'.replies ≡ record { request = q; response = result.0 } ∷ m.replies
      pub audit : m'.audit ≡ result.1.audit
      pub projects :
          (j : ℕ) → m'.projects j ≡ (if j == q.address then result.1.project else m.projects j)
      pub registered : m'.registered ≡ m.registered
      pub backend : m'.backend ≡ m.backend

    abbrev cached : BoundedCache → Project
    cached cache = record (m.projects q.address) { cache = cache }

    -- The state with another cache in the project.
    record IsCached (cache : BoundedCache) (m' : Memory c b.Fnox) : Type 0 where
      projects : (j : ℕ) → m'.projects j ≡ (if j == q.address then cached cache else m.projects j)
      audit : m'.audit ≡ m.audit
      replies : m'.replies ≡ m.replies
      registered : m'.registered ≡ m.registered
      backend : m'.backend ≡ m.backend

    -- The plane as it is recorded and given back, with a cache.
    abbrev ends_with : ProjectResponse → Verdict → BoundedCache → Times → ProjectResponse × Plane c
    ends_with r v cache t =
        (r, emit_fetch c q.name q.peer t v (record plane { project = cached cache }))

    abbrev looked : ℕ → Option CacheHit × BoundedCache
    looked at_lookup = Cache.get q.name at_lookup (m.projects q.address).cache

    -- The name is allowed, and was not in the cache when it was looked up.
    abbrev IsMissed : ℕ → Memory c b.Fnox → Type 0
    IsMissed at_lookup m' =
        (contains (m.projects q.address).manifest.allowlist.secrets q.name ≡ true)
        × ((looked at_lookup).0 ≡ none)
        × IsCached (looked at_lookup).1 m'

    -- The answer is decided, whenever it is recorded.
    abbrev IsDecided : ProjectResponse → Verdict → Memory c b.Fnox → Type 0
    IsDecided r v m' =
        (at_lookup : ℕ) × (at_insert : ℕ) × (cache : BoundedCache) × IsCached cache m'
        × ((at_emit timestamp : ℕ)
            → out at_lookup at_insert at_emit timestamp
              ≡ ends_with r v cache (times at_lookup at_insert at_emit timestamp))

    abbrev stored : Text → BoundedCache → ProjectResponse
    stored v cache = got (utf8 v (saturate_u32 (as_secs cache.default_ttl)))

    -- What is known at each point of the way.
    abbrev Known : Memory c b.Fnox → Pc b.Fnox → Type 0
    Known m' (checked r) =
        (r ≡ q)
        × (m' ≡ m)
        × (contains (m.projects q.address).manifest.allowlist.secrets q.name ≡ true)
    Known m' (missed r) = (r ≡ q) × ((l : ℕ) × IsMissed l m')
    Known m' (asking r f) = (r ≡ q) × (m.backend ≡ some f) × ((l : ℕ) × IsMissed l m')
    Known m' (fetched r v) =
        (r ≡ q)
        × ((f : b.Fnox) × (m.backend ≡ some f)
            × (b.get f q.name ≡ ok (some v))
            × ((l : ℕ) × IsMissed l m'))
    Known m' (inserted r v) =
        (r ≡ q)
        × ((at_lookup : ℕ) × (at_insert : ℕ) × (cache : BoundedCache) × IsCached cache m'
            × ((at_emit timestamp : ℕ)
                → out at_lookup at_insert at_emit timestamp
                  ≡ ends_with (stored v cache) (allowance Outcome.ok (some (codes "fnox"))) cache
                      (times at_lookup at_insert at_emit timestamp)))
    Known m' (deciding r a v) = (r ≡ q) × IsDecided a v m'
    Known m' idle =
        (at_lookup : ℕ) × (at_insert : ℕ) × (at_emit : ℕ) × (timestamp : ℕ) × IsServed
          (out at_lookup at_insert at_emit timestamp) m'
    Known m' (loaded p r) = ⊥
    Known m' (bounded p r) = ⊥
