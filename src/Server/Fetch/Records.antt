-- ===== src/Server/Fetch/Records.antt =====
-- The audit trail of `dispatch_get` in src/server.rs (FR-013, FR-017).
use remo_broker.Base.{
  ◌≡◌, ◌⊎◌, refl, Option, none, some, Text, codes, contains, Bool-cases, Option-cases, inl, inr,
  Result, ok, err, arith,
}
use remo_broker.Cache
use remo_broker.Audit.{Channel, Outcome, deny, allow, record_event}
use remo_broker.Proto
use remo_broker.Proto.{ProjectResponse, ProjectErrorCode, got, failed, error, denied, utf8}
use remo_broker.Server.{Backend, Peer, Times}
use remo_broker.Server.Fetch.{
  Plane, Verdict, before_backend, looked_up, after_backend, dispatch_get, emit_fetch, fetch_event,
  with_cache, denial, allowance, denied_message, no_session_message,
}

-- The outcome that an error code is recorded under.
abbrev pub Recorded : ProjectErrorCode → Verdict → Type 0
Recorded denied v = (v.decision ≡ deny) × (v.reason ≡ some (codes "allowlist")) × (v.backend ≡ none)
Recorded Proto.not_found v =
    (v.decision ≡ allow) × (v.outcome ≡ Outcome.not_found) × (v.reason ≡ none)
Recorded Proto.backend_error v =
    (v.decision ≡ allow) × (v.outcome ≡ Outcome.backend_error) × (v.reason ≡ none)
Recorded _ v = ⊥

-- The verdict of an audit record says what the answer says.
abbrev pub Agrees : ProjectResponse → Verdict → Type 0
Agrees (got r) v =
    (v.decision ≡ allow)
    × (v.outcome ≡ Outcome.ok)
    × (v.reason ≡ none)
    × ((v.backend ≡ some (codes "cache")) ⊎ (v.backend ≡ some (codes "fnox")))
Agrees (failed e) v = Recorded e.code v
Agrees _ v = ⊥

module _ (c : Channel) (b : Backend) (session : Option b.Fnox) (name : Text) (peer : Peer)
    (times : Times) (s : Plane c) where
  abbrev pub IsRecorded : ProjectResponse × Plane c → Type 0
  IsRecorded r =
      (v : Verdict) × Agrees r.0 v
      × (r.1.audit ≡ record_event c (fetch_event s.project.name name peer times v) s.audit)

  abbrev looked : Cache.BoundedCache
  looked = (Cache.get name times.at_lookup s.project.cache).1

  -- An answer with its verdict, on a plane that differs in the cache alone.
  emit_fetch-IsRecorded :
      (r : ProjectResponse) (v : Verdict) (cache : Cache.BoundedCache)
      → Agrees r v
      → (out : ProjectResponse × Plane c)
      → out ≡ (r, emit_fetch c name peer times v (with_cache c s cache))
      → IsRecorded out
  unfolding emit_fetch
  emit_fetch-IsRecorded r v cache agrees out e = rw e (v, agrees, refl)

  after_backend-IsRecorded :
      (a : Result Text (Option Text))
      → IsRecorded (after_backend c name peer times a (with_cache c s looked))
  unfolding after_backend
  after_backend-IsRecorded (ok (some v)) =
      (allowance Outcome.ok (some (codes "fnox")), (refl, refl, refl, inr refl), refl)
  after_backend-IsRecorded (ok none) =
      (allowance Outcome.not_found (some (codes "fnox")), (refl, refl, refl), refl)
  after_backend-IsRecorded (err m) =
      (allowance Outcome.backend_error (some (codes "fnox")), (refl, refl, refl), refl)

  -- Each `get` hands one event to the audit channel, under the project's and the secret's name, whose decision,
  -- outcome, backend and reason agree with the answer.
  pub get-IsRecorded : IsRecorded (dispatch_get c b session name peer times s)
  unfolding dispatch_get before_backend looked_up
  get-IsRecorded = elim (Bool-cases (contains s.project.manifest.allowlist.secrets name)) [
    | inr off ↦
        emit_fetch-IsRecorded (failed (error denied (denied_message name))) denial s.project.cache
          (refl, refl, refl) (dispatch_get c b session name peer times s) (ground arith)
    | inl on ↦ elim (Option-cases (Cache.get name times.at_lookup s.project.cache).0) [
      | inr (hit, q) ↦
          emit_fetch-IsRecorded (got (utf8 hit.value hit.ttl_seconds))
            (allowance Outcome.ok (some (codes "cache"))) looked (refl, refl, refl, inl refl)
            (dispatch_get c b session name peer times s) (ground arith)
      | inl q ↦ elim (Option-cases session) [
        | inl t ↦
            emit_fetch-IsRecorded (failed (error Proto.backend_error no_session_message))
              (allowance Outcome.backend_error none) looked (refl, refl, refl)
              (dispatch_get c b session name peer times s) (ground arith)
        | inr (fnox, t) ↦
            let e : dispatch_get c b session name peer times s
                ≡ after_backend c name peer times (b.get fnox name) (with_cache c s looked) =
              ground arith in
            rw e (after_backend-IsRecorded (b.get fnox name))
      ]
    ]
  ]
