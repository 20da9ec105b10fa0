-- ===== src/Server/Fetch/Caching.antt =====
-- The cache behind `dispatch_get` in src/server.rs.
use remo_broker.Base.{
  ◌-◌, ◌<◌, ◌≡◌, Option, none, some, Text, contains_iff, ok, arith, as_u32, as_secs,
}
use remo_broker.Base.Texts.{Among}
use remo_broker.Cache.Lookup.{get-insert_self}
use remo_broker.Audit.{Channel}
use remo_broker.Proto.{got, utf8}
use remo_broker.Server.{Backend, Peer, Times}
use remo_broker.Server.Fetch.{
  Plane, before_backend, looked_up, after_backend, dispatch_get, emit_fetch,
}

module _ (c : Channel) (name : Text) (peer : Peer) (times times' : Times) (s : Plane c)
    (v : Text) where
  -- The plane after the backend answered a request for `name` with `v`.
  abbrev pub fetched : Plane c
  fetched = (after_backend c name peer times (ok (some v)) s).1

  -- A value that the backend gave answers the next request of an allowed name from the cache,
  -- without the backend, for as long as the cache's default time to live, and the answer has the
  -- whole seconds that are left.
  pub fetched_answers :
      (b : Backend) (session : Option b.Fnox)
      → Among name s.project.manifest.allowlist.secrets
      → times'.at_lookup - times.at_insert < s.project.cache.default_ttl
      → (dispatch_get c b session name peer times' fetched).0
        ≡ got (
            utf8 v (
              as_u32
                (as_secs (s.project.cache.default_ttl - (times'.at_lookup - times.at_insert)))))
  unfolding dispatch_get before_backend looked_up after_backend emit_fetch
  fetched_answers b session on fresh = ground (
    arith,
    (contains_iff s.project.manifest.allowlist.secrets name).1 on,
    get-insert_self name v none times.at_insert times'.at_lookup s.project.cache,
  )
