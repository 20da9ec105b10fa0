-- ===== src/Server/Typing.antt =====
-- The type of what src/server.rs answers on a project's socket: `dispatch_project` against the
-- messages of src/proto/project.rs.
mod Examples
use remo_broker.Base.{
  ◌≡◌, ◌<◌, ◌^◌, refl, Option, none, some, Bool, true, false, Text, Result, ok, err, contains,
  arith, inl, inr, Bool-cases, Option-cases, ℕ,
}
use remo_broker.Base.Map
use remo_broker.Cache
use remo_broker.Audit.{Channel}
use remo_broker.Proto
use remo_broker.Proto.{
  ProjectRequest, ProjectResponse, ProjectErrorCode, GetResponse, got, ponged, informed, failed,
  denied,
}
use remo_broker.Server.{Backend, Peer, Times}
use remo_broker.Server.Fetch.{
  Plane, Phase, answered, awaiting, before_backend, looked_up, after_backend, dispatch_get,
  dispatch_project, is_session, answer,
}

-- The error codes that a `get` may meet.
pub data IsGetError : ProjectErrorCode → Type 0 where
  not_allowed : IsGetError denied
  not_known : IsGetError Proto.not_found
  no_answer : IsGetError Proto.backend_error

-- A value as text, and none in base64; the time to live fits its `u32`.
pub record IsValue (r : GetResponse) : Type 0 where
  pub ok : r.ok ≡ true
  pub value : Text
  pub as_text : r.value ≡ some value
  pub not_binary : r.value_b64 ≡ none
  pub ttl_fits : r.ttl_seconds < 2 ^ 32

-- What a request may be answered with.
pub data Answers (project : Text) : ProjectRequest → ProjectResponse → Type 0 where
  value : {name : Text} {r : GetResponse} → IsValue r → Answers project (Proto.get name) (got r)
  error :
      {name : Text} {e : Proto.ProjectError}
      → IsGetError e.code
      → e.ok ≡ false
      → e.retry_after_seconds ≡ none
      → Answers project (Proto.get name) (failed e)
  pong :
      {r : Proto.PingResponse}
      → r.ok ≡ true
      → r.protocol_version ≡ 1
      → r.project ≡ project
      → Answers project Proto.ping (ponged r)
  information :
      {r : Proto.InfoResponse}
      → r.ok ≡ true
      → r.project ≡ project
      → Answers project Proto.info (informed r)

ttl_fits :
    (name : Text) (now : ℕ) (cache : Cache.BoundedCache) (h : Cache.CacheHit)
    → (Cache.get name now cache).0 ≡ some h
    → h.ttl_seconds < 2 ^ 32
unfolding Cache.get Cache.found
ttl_fits name now cache h e = elim (Option-cases (Map.lookup name cache.map)) [
  | inl q ↦ absurd (ground arith)
  | inr (entry, q) ↦ ground arith
]

module _ (c : Channel) (project name : Text) (peer : Peer) (times : Times) where
  after_backend-Answers :
      (r : Result Text (Option Text)) (s : Plane c)
      → Answers project (Proto.get name) (after_backend c name peer times r s).0
  unfolding after_backend
  after_backend-Answers (ok (some v)) s =
      value (record {
        ok = refl;
        value = v;
        as_text = refl;
        not_binary = refl;
        ttl_fits = ground arith;
      })
  after_backend-Answers (ok none) s = error not_known refl refl
  after_backend-Answers (err m) s = error no_answer refl refl

  -- The code up to the backend call answers in kind, or leaves the answer to the backend.
  abbrev InKind : Phase c → Type 0
  InKind (answered r) = Answers project (Proto.get name) r
  InKind awaiting = Unit

  looked_up-InKind :
      (session : Bool) (s : Plane c) (hit : Option Cache.CacheHit)
      → ((h : Cache.CacheHit) → hit ≡ some h → h.ttl_seconds < 2 ^ 32)
      → InKind (looked_up c session name peer times s hit).0
  unfolding looked_up
  looked_up-InKind session s (some h) fits = value (record {
    ok = refl;
    value = h.value;
    as_text = refl;
    not_binary = refl;
    ttl_fits = fits h refl;
  })
  looked_up-InKind true s none fits = tt
  looked_up-InKind false s none fits = error no_answer refl refl

  before_backend-InKind :
      (session : Bool) (s : Plane c) → InKind (before_backend c session name peer times s).0
  unfolding before_backend
  before_backend-InKind session s =
      elim (Bool-cases (contains s.project.manifest.allowlist.secrets name)) [
        | inl on ↦
            rw (on, before_backend)
              (looked_up-InKind session _ _
                (λ h e. ttl_fits name times.at_lookup s.project.cache h e))
        | inr off ↦ rw (off, before_backend) (error not_allowed refl refl)
      ]

  finish :
      (b : Backend) (session : Option b.Fnox) (phase : Phase c) (s : Plane c)
      → InKind phase
      → let r : ProjectResponse × Plane c = elim phase [
        | answered r ↦ (r, s)
        | awaiting ↦ after_backend c name peer times (answer c b session name) s
      ] in
        Answers project (Proto.get name) r.0
  finish b session (answered r) s h = h
  finish b session awaiting s h = after_backend-Answers _ s

  dispatch_get-Answers :
      (b : Backend) (session : Option b.Fnox) (s : Plane c)
      → Answers project (Proto.get name) (dispatch_get c b session name peer times s).0
  unfolding dispatch_get
  dispatch_get-Answers b session s =
      finish b session _ _ (before_backend-InKind (is_session c session) s)

-- Every answer on a project's socket is of the type that its request asks for: a `get` meets one
-- value as text, with a time to live that fits its 32 bits, or an error with one of the three codes
-- denied, not_found and backend_error and without a time to retry after, so that a backend that
-- cannot be reached is never answered as `backend_unreachable`; a `ping` and an `info` always
-- succeed, and speak of the connection's own project.
pub dispatch_project-Answers :
    (c : Channel) (b : Backend) (session : Option b.Fnox) (version : Text)
    (request : ProjectRequest) (peer : Peer) (times : Times) (s : Plane c)
    → Answers s.project.name request (dispatch_project c b session version request peer times s).0
unfolding dispatch_project
dispatch_project-Answers c b session version Proto.ping peer times s = pong refl refl refl
dispatch_project-Answers c b session version Proto.info peer times s = information refl refl
dispatch_project-Answers c b session version (Proto.get name) peer times s =
    dispatch_get-Answers c s.project.name name peer times b session s
