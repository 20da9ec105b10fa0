-- ===== src/Server/Concurrent/Provenance.antt =====
-- Whose values the caches and the answers of src/server.rs hold, whatever runs at the same time.
use remo_broker.Base.{
  ℕ, ◌≡◌, refl, sym, ap, subst, Option, none, some, [], All, Text, Result, ok, inl, inr,
}
use remo_broker.Base.Map.{lookup}
use remo_broker.Cache
use remo_broker.Cache.{CacheEntry, CacheHit, BoundedCache, set_config}
use remo_broker.Cache.Lookup.{get_hit}
use remo_broker.Cache.Contents.{lookup-get, lookup-insert_of}
use remo_broker.Audit.{Channel}
use remo_broker.Registry.{Project}
use remo_broker.Proto.{ProjectResponse, got}
use remo_broker.Server.Concurrent.Tasks.{set_at-all}
use remo_broker.Server.Concurrent.{
  Reply, Pc, idle, fetched, inserted, deciding, Memory, System, Move, admit, refuse, hit, miss,
  no_session, ask, answer, absent, fail, store, read_ttl, emit, load, bound, swap, Step, move,
  abort, add, forget, rotate, Reach, here, later, put_cache,
}

nothing_in : (n : Text) (e : CacheEntry) → ¬ (lookup n [] ≡ some e)
unfolding lookup
nothing_in n e at = cc

module _ (c : Channel) (F : Type 0) (says : F → Text → Result Text (Option Text) → Type 0) where
  -- Some session answers the name with the value.
  abbrev pub Said : Text → Text → Type 0
  Said name v = (f : F) × says f name (ok (some v))

  abbrev pub GotSaid : Text → ProjectResponse → Type 0
  GotSaid name (got r) = (v : Text) × (r.value ≡ some v) × Said name v
  GotSaid name _ = Unit

  abbrev PcSaid : Pc F → Type 0
  PcSaid (fetched q v) = Said q.name v
  PcSaid (inserted q v) = Said q.name v
  PcSaid (deciding q r v) = GotSaid q.name r
  PcSaid _ = Unit

  abbrev pub CacheSaid : BoundedCache → Type 0
  CacheSaid cache = (n : Text) (e : CacheEntry) → lookup n cache.map ≡ some e → Said n e.value

  abbrev pub ReplySaid : Reply → Type 0
  ReplySaid r = GotSaid r.request.name r.response

  pub record MemorySaid (m : Memory c F) : Type 0 where
    pub caches : (p : ℕ) → CacheSaid (m.projects p).cache
    pub replies : All ReplySaid m.replies

  pub record SystemSaid (s : System c F) : Type 0 where
    pub mem : MemorySaid s.mem
    pub tasks : (i : ℕ) → PcSaid (s.pc i)

  get-CacheSaid :
      (n : Text) (now : ℕ) (cache after : BoundedCache) (h : Option CacheHit)
      → Cache.get n now cache ≡ (h, after)
      → CacheSaid cache
      → CacheSaid after
  get-CacheSaid n now cache after h e said j entry at =
      said j entry (lookup-get n now cache j entry (rw e at))

  put_cache-Said :
      {m : Memory c F} (p : ℕ) (cache : BoundedCache)
      → MemorySaid m
      → CacheSaid cache
      → MemorySaid (put_cache c F m p cache)
  put_cache-Said {m} p cache said h = record {
    caches =
        set_at-all (λ (x : Project). CacheSaid x.cache) m.projects p
          (record (m.projects p) { cache = cache }) h said.caches;
    replies = said.replies;
  }

  hit-Said :
      (n : Text) (now : ℕ) (cache after : BoundedCache) (h : CacheHit)
      → Cache.get n now cache ≡ (some h, after)
      → CacheSaid cache
      → Said n h.value
  hit-Said n now cache after h e said =
      let (entry, at, same_value, _, _) = get_hit n now cache h (ap (λ x. x.0) e) in
      subst (Said n) (sym same_value) (said n entry at)

  insert-CacheSaid :
      (n v : Text) (now : ℕ) (cache : BoundedCache)
      → Said n v
      → CacheSaid cache
      → CacheSaid (Cache.insert n v none now cache)
  insert-CacheSaid n v now cache new said j entry at =
      elim (lookup-insert_of n v none now cache j entry at) [
        | inl (e, same_value) ↦
            subst (λ x. Said x entry.value) e (subst (Said n) (sym same_value) new)
        | inr old ↦ said j entry old
      ]

  Move-Said :
      {m m' : Memory c F} {p p' : Pc F}
      → Move c F says m p m' p'
      → MemorySaid m
      → PcSaid p
      → MemorySaid m' × PcSaid p'
  Move-Said {m} (hit {q} now {h} {cache} e) said own =
      let old = said.caches q.address in
      (
        put_cache-Said q.address cache said (get-CacheSaid q.name now _ cache (some h) e old),
        (h.value, refl, hit-Said q.name now _ cache h e old),
      )
  Move-Said {m} (miss {q} now {cache} e) said own = (
    put_cache-Said q.address cache said
        (get-CacheSaid q.name now _ cache none e (said.caches q.address)),
    tt,
  )
  Move-Said (answer {q} {f} {v} a) said own = (said, (f, a))
  Move-Said {m} (store {q} {v} now) said own = (
    put_cache-Said q.address (Cache.insert q.name v none now (m.projects q.address).cache) said
        (insert-CacheSaid q.name v now (m.projects q.address).cache own (said.caches q.address)),
    own,
  )
  Move-Said (read_ttl {q} {v}) said own = (said, (v, refl, own))
  Move-Said (emit at_emit timestamp) said own =
      (record { caches = said.caches; replies = (own, said.replies) }, tt)
  Move-Said {m} (bound {p} {manifest}) said own =
      (put_cache-Said p _ said (unfold set_config in said.caches p), tt)
  Move-Said {m} (swap {p} {manifest}) said own = (
    record {
      caches =
          set_at-all (λ (x : Project). CacheSaid x.cache) m.projects p
            (record (m.projects p) { manifest = manifest }) (said.caches p) said.caches;
      replies = said.replies;
    },
    tt,
  )
  Move-Said (admit known a) said own = (said, tt)
  Move-Said (refuse known a) said own = (said, tt)
  Move-Said (no_session a) said own = (said, tt)
  Move-Said (ask a) said own = (said, tt)
  Move-Said (absent a) said own = (said, tt)
  Move-Said (fail a) said own = (said, tt)
  Move-Said (load fs name path a b) said own = (said, tt)

  Step-Said : {s t : System c F} → Step c F says s t → SystemSaid s → SystemSaid t
  Step-Said {s} (move i {m} {p} mv) said =
      let (mem, own) = Move-Said mv said.mem (said.tasks i) in
      record { mem = mem; tasks = set_at-all PcSaid s.pc i p own said.tasks }
  Step-Said {s} (abort i waits) said = record {
    mem = said.mem;
    tasks = set_at-all PcSaid s.pc i idle tt said.tasks;
  }
  Step-Said {s} (add name project empty free) said = record {
    mem = record {
      caches =
          set_at-all (λ (x : Project). CacheSaid x.cache) s.mem.projects s.mem.next project
            (λ n e at. absurd (nothing_in n e (rw (← empty) at))) said.mem.caches;
      replies = said.mem.replies;
    };
    tasks = said.tasks;
  }
  Step-Said (forget name) said = record {
    mem = record { caches = said.mem.caches; replies = said.mem.replies };
    tasks = said.tasks;
  }
  Step-Said (rotate old new e) said = record {
    mem = record { caches = said.mem.caches; replies = said.mem.replies };
    tasks = said.tasks;
  }

  -- However the requests, the reloads, the rotations, the registrations and the removals
  -- interleave, from a state whose cached values, answers and values in hand were said by the
  -- backend for their very names, every later one is such a state: no client is answered with the
  -- value of another name, and no cache holds one.
  pub Reach-Said : {s t : System c F} → Reach c F says s t → SystemSaid s → SystemSaid t
  Reach-Said here said = said
  Reach-Said (later r st) said = Step-Said st (Reach-Said r said)
