-- ===== src/Server/Fetch/Secrecy.antt =====
-- Where a secret's value goes in the data plane of src/server.rs.
use mathlib.Core.Option
use std.Path.{fun_ext}
use remo_broker.Base.{
  ◌≡◌, refl, sym, ◌∙◌, ap, contains, Option, none, some, List, [], ◌∷◌, map, Text, Result, ok, err,
  Bool, true, false, Bool-cases, inl, inr, ◌⊎◌, arith,
}
use remo_broker.Cache
use remo_broker.Cache.Blank.{blank, blank_hit, get-blank, insert-blank}
use remo_broker.Audit.{Channel}
use remo_broker.Proto
use remo_broker.Proto.{ProjectRequest, ProjectResponse, GetResponse, got, ponged, informed, failed}
use remo_broker.Server.{Backend, Peer, Times}
use remo_broker.Server.Fetch.{
  Plane, Phase, answered, awaiting, looked_up, before_backend, after_backend, emit_fetch,
  dispatch_get, dispatch_project, is_session, answer, with_cache,
}

-- The values are blanked, and all else is kept.
abbrev pub blank_answer : Result Text (Option Text) → Result Text (Option Text)
blank_answer (ok (some value)) = ok (some [])
blank_answer (ok none) = ok none
blank_answer (err message) = err message

abbrev pub blank_got : GetResponse → GetResponse
blank_got r = record r { value = Option.map (λ value. []) r.value }

abbrev pub blank_response : ProjectResponse → ProjectResponse
blank_response (got r) = got (blank_got r)
blank_response (ponged r) = ponged r
blank_response (informed r) = informed r
blank_response (failed e) = failed e

-- The backend that has every secret, and every one empty.
abbrev pub silent : Backend → Backend
silent b = record b { get = λ fnox name. blank_answer (b.get fnox name) }

-- One request on the project's socket, and the session of that time.
pub record Call (Fnox : Type 0) : Type 0 where
  pub session : Option Fnox
  pub request : ProjectRequest
  pub peer : Peer
  pub times : Times

module _ (c : Channel) where
  abbrev pub blank_plane : Plane c → Plane c
  blank_plane s = record s { project = record s.project { cache = blank s.project.cache } }

  abbrev blank_phase : Phase c → Phase c
  blank_phase (answered r) = answered (blank_response r)
  blank_phase awaiting = awaiting

  -- The requests one after the other.
  unfoldable pub serve :
      (b : Backend) → Text → List (Call b.Fnox) → Plane c → List ProjectResponse × Plane c
  serve b version [] s = ([], s)
  serve b version (call ∷ calls) s =
      let (r, s') = dispatch_project c b call.session version call.request call.peer call.times s in
      let (rs, last) = serve b version calls s' in (r ∷ rs, last)

  looked_up-blank :
      (session : Bool) (name : Text) (peer : Peer) (times : Times) (s : Plane c)
      (hit : Option Cache.CacheHit)
      → looked_up c session name peer times (blank_plane s) (blank_hit hit) ≡ (
        blank_phase (looked_up c session name peer times s hit).0,
        blank_plane (looked_up c session name peer times s hit).1,
      )
  unfolding looked_up emit_fetch
  looked_up-blank session name peer times s (some hit) = refl
  looked_up-blank true name peer times s none = refl
  looked_up-blank false name peer times s none = refl

  before_backend-blank :
      (session : Bool) (name : Text) (peer : Peer) (times : Times) (s : Plane c)
      → before_backend c session name peer times (blank_plane s) ≡ (
        blank_phase (before_backend c session name peer times s).0,
        blank_plane (before_backend c session name peer times s).1,
      )
  unfolding before_backend emit_fetch
  before_backend-blank session name peer times s =
      elim (Bool-cases (contains s.project.manifest.allowlist.secrets name)) [
        | inl allowed ↦
            let (hit, cache) = Cache.get name times.at_lookup s.project.cache in
            rw (allowed, get-blank name times.at_lookup s.project.cache)
              (looked_up-blank session name peer times (with_cache c s cache) hit)
        | inr refused ↦ rw refused refl
      ]

  after_backend-blank :
      (name : Text) (peer : Peer) (times : Times) (a : Result Text (Option Text)) (s : Plane c)
      → after_backend c name peer times (blank_answer a) (blank_plane s) ≡ (
        blank_response (after_backend c name peer times a s).0,
        blank_plane (after_backend c name peer times a s).1,
      )
  unfolding after_backend emit_fetch
  after_backend-blank name peer times (ok (some v)) s =
      rw (insert-blank name v none times.at_insert s.project.cache) refl
  after_backend-blank name peer times (ok none) s = refl
  after_backend-blank name peer times (err e) s = refl

  Phase-cases : (p : Phase c) → ((r : ProjectResponse) × (p ≡ answered r)) ⊎ (p ≡ awaiting)
  Phase-cases (answered r) = inl (r, refl)
  Phase-cases awaiting = inr refl

  answer-blank :
      (b : Backend) (session : Option b.Fnox) (name : Text)
      → answer c (silent b) session name ≡ blank_answer (answer c b session name)
  answer-blank b none name = refl
  answer-blank b (some fnox) name = refl

  abbrev finished :
      Text
      → Peer
      → Times
      → Result Text (Option Text)
      → Phase c × Plane c
      → ProjectResponse × Plane c
  finished name peer times a (answered r, s) = (r, s)
  finished name peer times a (awaiting, s) = after_backend c name peer times a s

  finished-blank :
      (name : Text) (peer : Peer) (times : Times) (a : Result Text (Option Text))
      (p : Phase c × Plane c)
      → finished name peer times (blank_answer a) (blank_phase p.0, blank_plane p.1) ≡ (
        blank_response (finished name peer times a p).0,
        blank_plane (finished name peer times a p).1,
      )
  finished-blank name peer times a (answered r, s) = refl
  finished-blank name peer times a (awaiting, s) = after_backend-blank name peer times a s

  dispatch_get-finished :
      (b : Backend) (session : Option b.Fnox) (name : Text) (peer : Peer) (times : Times)
      (s : Plane c)
      → dispatch_get c b session name peer times s
        ≡ finished name peer times
            (answer c b session name)
            (before_backend c (is_session c session) name peer times s)
  unfolding dispatch_get
  dispatch_get-finished b session name peer times s =
      elim (Phase-cases (before_backend c (is_session c session) name peer times s).0) [
        | inl (r, q) ↦ ground arith
        | inr q ↦ ground arith
      ]

  module _ (b : Backend) (session : Option b.Fnox) where
    dispatch_get-blank :
        (name : Text) (peer : Peer) (times : Times) (s : Plane c)
        → dispatch_get c (silent b) session name peer times (blank_plane s) ≡ (
          blank_response (dispatch_get c b session name peer times s).0,
          blank_plane (dispatch_get c b session name peer times s).1,
        )
    dispatch_get-blank name peer times s =
        let before = before_backend c (is_session c session) name peer times in
        rw
          (
            dispatch_get-finished (silent b) session name peer times (blank_plane s),
            dispatch_get-finished b session name peer times s,
            answer-blank b session name,
            before_backend-blank (is_session c session) name peer times s,
          )
          (finished-blank name peer times (answer c b session name) (before s))

    dispatch_project-blank :
        (version : Text) (request : ProjectRequest) (peer : Peer) (times : Times) (s : Plane c)
        → dispatch_project c (silent b) session version request peer times (blank_plane s) ≡ (
          blank_response (dispatch_project c b session version request peer times s).0,
          blank_plane (dispatch_project c b session version request peer times s).1,
        )
    unfolding dispatch_project
    dispatch_project-blank version (Proto.get name) peer times s =
        dispatch_get-blank name peer times s
    dispatch_project-blank version Proto.ping peer times s = refl
    dispatch_project-blank version Proto.info peer times s = refl

  -- Requests on a plane whose values are blanked, with a backend that gives every value blank,
  -- are answered as they are with the values, less the values, and leave the plane as they do,
  -- less the values.
  pub serve-blank :
      (b : Backend) (version : Text) (calls : List (Call b.Fnox)) (s : Plane c)
      → serve (silent b) version calls (blank_plane s)
        ≡ (map blank_response (serve b version calls s).0, blank_plane (serve b version calls s).1)
  unfolding serve
  serve-blank b version [] s = refl
  serve-blank b version (call ∷ calls) s =
      let s' = (dispatch_project c b call.session version call.request call.peer call.times s).1 in
      rw
        (
          dispatch_project-blank b call.session version call.request call.peer call.times s,
          serve-blank b version calls s',
        )
        refl

  -- No value of a secret reaches the audit log: two backends that tell the names alike, on planes
  -- that differ in the cached values alone, leave the same audit trail behind any requests.
  pub serve-audit :
      (b : Backend) (get : b.Fnox → Text → Result Text (Option Text)) (version : Text)
      (calls : List (Call b.Fnox)) (s t : Plane c)
      → ((fnox : b.Fnox) (name : Text)
          → blank_answer (b.get fnox name) ≡ blank_answer (get fnox name))
      → blank_plane s ≡ blank_plane t
      → (serve b version calls s).1.audit ≡ (serve (record b { get = get }) version calls t).1.audit
  serve-audit b get version calls s t alike blanked =
      ap (λ (out : List ProjectResponse × Plane c). out.1.audit)
        (sym (serve-blank b version calls s)
          ∙ served_alike
          ∙ serve-blank (record b { get = get }) version calls t)
    where
      served_alike :
          serve (silent b) version calls (blank_plane s)
          ≡ serve (silent (record b { get = get })) version calls (blank_plane t)
      served_alike =
          ap (λ told. serve (record b { get = told }) version calls (blank_plane s))
            (fun_ext (λ fnox. fun_ext (λ name. alike fnox name)))
          ∙ ap (serve (silent (record b { get = get })) version calls) blanked
