-- ===== src/Server/Fetch.antt =====
-- `dispatch_project`, `dispatch_get` and `emit_fetch` of src/server.rs: the data plane.
-- `dispatch_get` waits once, for the backend: `before_backend` is the code up to that point, and
-- `after_backend` the code behind it, which runs on the state of that time.
pub mod Policy
pub mod Records
pub mod Caching
pub mod Secrecy
mod Examples
use remo_broker.Base.{
  ◌-◌, Bool, true, false, Option, none, some, [], ◌∷◌, Text, codes, contains, Result, ok, err,
  as_secs, as_millis, saturate_u32, if◌then◌else◌,
}
use remo_broker.Cache
use remo_broker.Cache.{CacheHit}
use remo_broker.Registry.{Project}
use remo_broker.Audit
use remo_broker.Audit.{
  Channel, AuditWriter, AuditEvent, Decision, Outcome, record_event, allow, deny, fetch,
}
use remo_broker.Proto
use remo_broker.Proto.{
  Message, ProjectRequest, ProjectResponse, got, ponged, informed, failed, error, utf8, denied,
  ping_response, info_response, text,
}
use remo_broker.Server.{Backend, Peer, Times}

-- What varies between the calls of `emit_fetch`.
pub record Verdict : Type 0 where
  pub decision : Decision
  pub outcome : Outcome
  pub backend : Option Text
  pub reason : Option Text

abbrev pub denial : Verdict
denial = record {
  decision = deny;
  outcome = Outcome.ok;
  backend = none;
  reason = some (codes "allowlist");
}

abbrev pub allowance : Outcome → Option Text → Verdict
allowance outcome backend = record {
  decision = allow;
  outcome = outcome;
  backend = backend;
  reason = none;
}

abbrev pub fetch_event : Text → Text → Peer → Times → Verdict → AuditEvent
fetch_event project name peer times v = fetch (record {
  timestamp = times.timestamp;
  project = project;
  secret_name = name;
  decision = v.decision;
  outcome = v.outcome;
  peer_pid = peer.pid;
  peer_uid = peer.uid;
  latency_ms = saturate_u32 (as_millis (times.at_emit - times.start));
  backend = v.backend;
  reason = v.reason;
})

abbrev pub denied_message : Text → Message
denied_message name = record {
  format = codes "Secret {name:?} is not in this project's allowlist.";
  values = text name ∷ [];
}

abbrev pub not_found_message : Text → Message
not_found_message name = record {
  format = codes "Secret {name:?} not found by fnox-core resolver.";
  values = text name ∷ [];
}

abbrev pub no_session_message : Message
no_session_message = record {
  format = codes "no fnox-core session is configured; rerun the daemon with --fnox-config";
  values = [];
}

abbrev pub backend_message : Text → Message
backend_message msg = record { format = codes "fnox-core: {msg}"; values = text msg ∷ [] }

module _ (c : Channel) where
  -- The state that the data plane of one project changes: its cache and the audit channel.
  pub record Plane : Type 0 where
    pub project : Project
    pub audit : AuditWriter c.Tx

  unfoldable pub emit_fetch : Text → Peer → Times → Verdict → Plane → Plane
  emit_fetch name peer times v s = record s {
    audit = record_event c (fetch_event s.project.name name peer times v) s.audit;
  }

  -- The code up to the backend call has answered, or the call is to be made.
  pub data Phase : Type 0 where
    answered : ProjectResponse → Phase
    awaiting : Phase

  abbrev with_cache : Plane → Cache.BoundedCache → Plane
  with_cache s cache = record s { project = record s.project { cache = cache } }

  -- A cache hit answers; a miss goes on to the backend, where there is one.
  unfoldable pub looked_up : Bool → Text → Peer → Times → Plane → Option CacheHit → Phase × Plane
  unfolding emit_fetch
  looked_up session name peer times s (some hit) = (
    answered (got (utf8 hit.value hit.ttl_seconds)),
    emit_fetch name peer times (allowance Outcome.ok (some (codes "cache"))) s,
  )
  looked_up true name peer times s none = (awaiting, s)
  looked_up false name peer times s none = (
    answered (failed (error Proto.backend_error no_session_message)),
    emit_fetch name peer times (allowance Outcome.backend_error none) s,
  )

  -- `session` says whether the daemon has a backend session.
  unfoldable pub before_backend : Bool → Text → Peer → Times → Plane → Phase × Plane
  unfolding looked_up
  before_backend session name peer times s =
      if contains s.project.manifest.allowlist.secrets name
      then (let (hit, cache) = Cache.get name times.at_lookup s.project.cache in
          looked_up session name peer times (with_cache s cache) hit)
      else (
        answered (failed (error denied (denied_message name))),
        emit_fetch name peer times denial s,
      )

  unfoldable pub after_backend :
      Text → Peer → Times → Result Text (Option Text) → Plane → ProjectResponse × Plane
  unfolding emit_fetch
  after_backend name peer times (ok (some plaintext)) s =
      let cache = Cache.insert name plaintext none times.at_insert s.project.cache in
      (
        got (utf8 plaintext (saturate_u32 (as_secs cache.default_ttl))),
        emit_fetch name peer times (allowance Outcome.ok (some (codes "fnox")))
            (with_cache s cache),
      )
  after_backend name peer times (ok none) s = (
    failed (error Proto.not_found (not_found_message name)),
    emit_fetch name peer times (allowance Outcome.not_found (some (codes "fnox"))) s,
  )
  after_backend name peer times (err msg) s = (
    failed (error Proto.backend_error (backend_message msg)),
    emit_fetch name peer times (allowance Outcome.backend_error (some (codes "fnox"))) s,
  )

  abbrev pub is_session : {F : Type 0} → Option F → Bool
  is_session none = false
  is_session (some f) = true

  -- The session that answers is the one in place when the call is made; the answer of a backend
  -- that is not there is never asked for.
  abbrev pub answer : (b : Backend) → Option b.Fnox → Text → Result Text (Option Text)
  answer b none name = ok none
  answer b (some fnox) name = b.get fnox name

  -- A `get` with nothing else running while it waits.
  unfoldable pub dispatch_get :
      (b : Backend) → Option b.Fnox → Text → Peer → Times → Plane → ProjectResponse × Plane
  dispatch_get b session name peer times s =
      let (phase, s') = before_backend (is_session session) name peer times s in
      elim phase [
        | answered r ↦ (r, s')
        | awaiting ↦ after_backend name peer times (answer b session name) s'
      ]

  unfoldable pub dispatch_project :
      (b : Backend)
      → Option b.Fnox
      → Text
      → ProjectRequest
      → Peer
      → Times
      → Plane
      → ProjectResponse × Plane
  dispatch_project b session version Proto.ping peer times s =
      (ponged (ping_response version s.project.name), s)
  dispatch_project b session version Proto.info peer times s = (
    informed (
        info_response s.project.name s.project.manifest.allowlist.secrets
          s.project.manifest.schema_version),
    s,
  )
  dispatch_project b session version (Proto.get name) peer times s =
      dispatch_get b session name peer times s
