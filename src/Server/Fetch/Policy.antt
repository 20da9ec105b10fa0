-- ===== src/Server/Fetch/Policy.antt =====
-- The allowlist policy of `dispatch_get` in src/server.rs (FR-012, FR-014).
use remo_broker.Base.{
  ◌-◌, ◌<◌, ◌≡◌, ◌≢◌, ◌↔◌, ◌⊎◌, refl, ap, true, false, Option, none, some, List, Text, contains,
  contains_iff, Bool-cases, Option-cases, Result-cases, inl, inr, ok, arith,
}
use remo_broker.Base.Texts.{Among}
use remo_broker.Base.Map.{lookup}
use remo_broker.Cache
use remo_broker.Cache.{CacheEntry}
use remo_broker.Cache.Lookup.{get_hit}
use remo_broker.Audit.{Channel}
use remo_broker.Proto.{GetResponse, ProjectResponse, ProjectError, got, failed, error, denied}
use remo_broker.Server.{Backend, Peer, Times}
use remo_broker.Server.Fetch.{
  Plane, before_backend, looked_up, after_backend, dispatch_get, emit_fetch, denial, denied_message,
}

-- The answer is an error with the code `denied`.
abbrev pub IsDenial : ProjectResponse → Type 0
IsDenial r = (e : ProjectError) × (r ≡ failed e) × (e.code ≡ denied)

module _ (c : Channel) (b : Backend) (session : Option b.Fnox) (name : Text) (peer : Peer)
    (times : Times) (s : Plane c) where
  abbrev allowlist : List Text
  allowlist = s.project.manifest.allowlist.secrets

  -- A name that is not on the allowlist is answered with `denied` and leaves the project as it
  -- was, its cache included, whatever backend session there is; the refusal is recorded.
  denied_outside :
      contains allowlist name ≡ false
      → dispatch_get c b session name peer times s
        ≡ (failed (error denied (denied_message name)), emit_fetch c name peer times denial s)
  unfolding dispatch_get before_backend
  denied_outside h = ground arith

  not_denied_inside :
      contains allowlist name ≡ true
      → (e : ProjectError) → (dispatch_get c b session name peer times s).0 ≡ failed e
      → e.code ≢ denied
  unfolding dispatch_get before_backend looked_up after_backend
  not_denied_inside h e q d =
      elim (Option-cases (Cache.get name times.at_lookup s.project.cache).0) [
        | inr (hit, u) ↦ ground arith
        | inl u ↦ elim (Option-cases session) [
          | inl t ↦ ground arith
          | inr (fnox, t) ↦ elim (Result-cases (b.get fnox name)) [
            | inl (none, a) ↦ ground arith
            | inl (some v, a) ↦ ground arith
            | inr (m, a) ↦ ground arith
          ]
        ]
      ]

  -- A `get` is answered with an error whose code is `denied`, whatever its message, exactly where
  -- the name is not on the allowlist: with an allowed name neither the cache nor any answer of the
  -- backend leads there.
  pub denied_iff :
      IsDenial (dispatch_get c b session name peer times s).0 ↔ (¬ Among name allowlist)
  denied_iff = elim (Bool-cases (contains allowlist name)) [
    | inl on ↦ (
      λ (e, q, d). absurd (not_denied_inside on e q d),
      λ h. absurd (h ((contains_iff allowlist name).0 on)),
    )
    | inr off ↦ (
      λ e a. ground (arith, (contains_iff allowlist name).1 a),
      λ h. (error denied (denied_message name), ap (λ x. x.0) (denied_outside off), refl),
    )
  ]

  -- A `get` of a name that is not on the allowlist is refused whatever the backend would say, and
  -- changes nothing of the project, its cache included.
  pub denied_untouched :
      ¬ Among name allowlist
      → ((dispatch_get c b session name peer times s).0
          ≡ failed (error denied (denied_message name)))
        × ((dispatch_get c b session name peer times s).1.project ≡ s.project)
  unfolding emit_fetch
  denied_untouched h = elim (Bool-cases (contains allowlist name)) [
    | inl on ↦ absurd (h ((contains_iff allowlist name).0 on))
    | inr off ↦ (ap (λ x. x.0) (denied_outside off), ap (λ x. x.1.project) (denied_outside off))
  ]

  -- What a `got` answer gives away: the name is allowed, and the value is that of a cache entry
  -- that is not past its time to live or, where the cache has none, the backend's answer.
  pub got_source :
      (r : GetResponse)
      → (dispatch_get c b session name peer times s).0 ≡ got r
      → Among name allowlist
        × (((e : CacheEntry) × (lookup name s.project.cache.map ≡ some e)
              × (times.at_lookup - e.fetched_at < e.ttl)
              × (r.value ≡ some e.value))
            ⊎ (((Cache.get name times.at_lookup s.project.cache).0 ≡ none)
                × ((fnox : b.Fnox) × (v : Text) × (session ≡ some fnox)
                    × (b.get fnox name ≡ ok (some v))
                    × (r.value ≡ some v))))
  unfolding dispatch_get before_backend looked_up after_backend
  got_source r h = elim (Bool-cases (contains allowlist name)) [
    | inr off ↦ absurd (ground arith)
    | inl on ↦
        let among = (contains_iff allowlist name).0 on in
        elim (Option-cases (Cache.get name times.at_lookup s.project.cache).0) [
          | inr (hit, q) ↦
              let (e, at, same_value, fresh, _) =
                get_hit name times.at_lookup s.project.cache hit q in
              (among, inl (e, at, fresh, ground arith))
          | inl q ↦ elim (Option-cases session) [
            | inl t ↦ absurd (ground arith)
            | inr (fnox, t) ↦ elim (Result-cases (b.get fnox name)) [
              | inr (m, a) ↦ absurd (ground arith)
              | inl (none, a) ↦ absurd (ground arith)
              | inl (some v, a) ↦ (among, inr (q, (fnox, v, t, a, ground arith)))
            ]
          ]
        ]
  ]
