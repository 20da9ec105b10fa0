-- ===== src/Server/Fetch/Examples.antt =====
-- The data plane's properties at concrete inputs.
use remo_broker.Base.{
  ℕ, ◌-◌, ◌<◌, ◌≡◌, ◌↔◌, ◌⊎◌, refl, inl, inr, none, some, [], ◌∷◌, codes, arith, Text, ok, Result,
  Option, List, same, Bool-cases, if◌then◌else◌,
}
use remo_broker.Base.Texts
use remo_broker.Base.Texts.{Among}
use remo_broker.Base.Map.{lookup}
use remo_broker.Cache
use remo_broker.Registry
use remo_broker.Cache.{CacheEntry}
use remo_broker.Audit.Bounded.{bounded}
use remo_broker.Proto.{got, utf8}
use remo_broker.Server.Fetch.{dispatch_get, before_backend, looked_up, after_backend}
use remo_broker.Server.Fetch.Policy.{IsDenial, denied_iff, got_source}
use remo_broker.Proto
use remo_broker.Server.Fetch.Secrecy.{Call, blank_answer, serve, serve-audit}
use remo_broker.Server.Samples.{numbered, peer, at_second, plane}

abbrev foo : Text
foo = codes "FOO"

abbrev bar : Text
bar = codes "BAR"

not-Among : ¬ Among bar (foo ∷ [])
not-Among (inl e) = ground (arith, (Texts.same_iff foo bar).1 e)
not-Among (inr h) = h

denied_iff_example :
    IsDenial (dispatch_get bounded numbered (some 1) bar peer (at_second 1) plane).0
    ↔ (¬ Among bar (foo ∷ []))
denied_iff_example = denied_iff bounded numbered (some 1) bar peer (at_second 1) plane

got_foo :
    (dispatch_get bounded numbered (some 1) foo peer (at_second 1) plane).0
    ≡ got (utf8 (1 ∷ []) 900)
unfolding dispatch_get before_backend looked_up after_backend Cache.get lookup Texts.contains
    Texts.same Cache.insert Registry.resolve_cache_bounds
got_foo = refl

got_source_example :
    Among foo (foo ∷ [])
    × (((e : CacheEntry) × (lookup foo plane.project.cache.map ≡ some e)
          × ((at_second 1).at_lookup - e.fetched_at < e.ttl)
          × (some (1 ∷ []) ≡ some e.value))
        ⊎ (((Cache.get foo (at_second 1).at_lookup plane.project.cache).0 ≡ none)
            × ((fnox : ℕ) × (v : Text) × (some 1 ≡ some fnox)
                × (numbered.get fnox foo ≡ ok (some v))
                × (some (1 ∷ []) ≡ some v))))
got_source_example =
    got_source bounded numbered (some 1) foo peer (at_second 1) plane (utf8 (1 ∷ []) 900) got_foo

-- A backend that has another value for every name.
abbrev elsewhere : ℕ → Text → Result Text (Option Text)
elsewhere fnox name = if same name foo then ok (some (codes "other")) else ok none

told_alike :
    (fnox : ℕ) (name : Text)
    → blank_answer (numbered.get fnox name) ≡ blank_answer (elsewhere fnox name)
told_alike fnox name = elim (Bool-cases (same name foo)) [ inl q ↦ rw q refl | inr q ↦ rw q refl ]

abbrev calls : List (Call ℕ)
calls =
    record { session = some 1; request = Proto.get foo; peer = peer; times = at_second 1 }
    ∷ record { session = some 1; request = Proto.get foo; peer = peer; times = at_second 2 }
    ∷ []

serve-audit_example :
    (serve bounded numbered (codes "0.1.0") calls plane).1.audit
    ≡ (serve bounded (record numbered { get = elsewhere }) (codes "0.1.0") calls plane).1.audit
serve-audit_example =
    serve-audit bounded numbered elsewhere (codes "0.1.0") calls plane plane told_alike refl
