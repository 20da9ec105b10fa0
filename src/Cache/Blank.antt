-- ===== src/Cache/Blank.antt =====
-- The cache of src/cache.rs with its values blanked: which parts of it a value can reach.
use mathlib.Core.Option
use remo_broker.Base.{
  ◌≡◌, refl, ap, leb, ◌-◌, length, Option, none, some, [], ◌∷◌, Text, same, ℕ, Bool-cases, inl, inr,
  Option-cases, arith,
}
use remo_broker.Base.Map
use remo_broker.Base.Map.{Map, lookup, remove, contains_key}
use remo_broker.Cache.{
  CacheEntry, CacheHit, BoundedCache, is_expired, remaining_ttl, found, get, older,
  min_by_fetched_at, evict_oldest, make_room, insert,
}

abbrev pub blank_entry : CacheEntry → CacheEntry
blank_entry e = record e { value = [] }

abbrev pub blank_map : Map CacheEntry → Map CacheEntry
blank_map [] = []
blank_map ((k, e) ∷ m) = (k, blank_entry e) ∷ blank_map m

abbrev pub blank : BoundedCache → BoundedCache
blank c = record c { map = blank_map c.map }

abbrev pub blank_hit : Option CacheHit → Option CacheHit
blank_hit none = none
blank_hit (some hit) = some (record hit { value = [] })

lookup-blank :
    (k : Text) (m : Map CacheEntry) → lookup k (blank_map m) ≡ Option.map blank_entry (lookup k m)
unfolding lookup
lookup-blank k [] = refl
lookup-blank k ((j, e) ∷ m) = elim (Bool-cases (same j k)) [
  | inl here ↦ rw here refl
  | inr there ↦ rw there (lookup-blank k m)
]

remove-blank : (k : Text) (m : Map CacheEntry) → remove k (blank_map m) ≡ blank_map (remove k m)
unfolding remove
remove-blank k [] = refl
remove-blank k ((j, e) ∷ m) = elim (Bool-cases (same j k)) [
  | inl here ↦ rw here (remove-blank k m)
  | inr there ↦ rw there (ap (λ rest. (j, blank_entry e) ∷ rest) (remove-blank k m))
]

length-blank : (m : Map CacheEntry) → length (blank_map m) ≡ length m
length-blank [] = refl
length-blank (_ ∷ m) = ground (arith, length-blank m)

abbrev blank_pair : Text × CacheEntry → Text × CacheEntry
blank_pair (k, e) = (k, blank_entry e)

older-blank :
    (k : Text) (e : CacheEntry) (o : Option (Text × CacheEntry))
    → older k (blank_entry e) (Option.map blank_pair o) ≡ Option.map blank_pair (older k e o)
unfolding older
older-blank k e none = refl
older-blank k e (some (j, f)) = elim (Bool-cases (leb e.fetched_at f.fetched_at)) [
  | inl q ↦ rw q refl
  | inr q ↦ rw q refl
]

min_by_fetched_at-blank :
    (m : Map CacheEntry)
    → min_by_fetched_at (blank_map m) ≡ Option.map blank_pair (min_by_fetched_at m)
unfolding min_by_fetched_at
min_by_fetched_at-blank [] = refl
min_by_fetched_at-blank ((k, e) ∷ m) =
    rw (min_by_fetched_at-blank m) (older-blank k e (min_by_fetched_at m))

evict_oldest-blank : (m : Map CacheEntry) → evict_oldest (blank_map m) ≡ blank_map (evict_oldest m)
unfolding evict_oldest
evict_oldest-blank m = elim (Option-cases (min_by_fetched_at m)) [
  | inl q ↦ ground (arith, min_by_fetched_at-blank m)
  | inr ((k, e), q) ↦ ground (arith, min_by_fetched_at-blank m, remove-blank k m)
]

contains_key-blank :
    (k : Text) (m : Map CacheEntry) → contains_key k (blank_map m) ≡ contains_key k m
unfolding contains_key
contains_key-blank k m = elim (Option-cases (lookup k m)) [
  | inl q ↦ ground (arith, lookup-blank k m)
  | inr (e, q) ↦ ground (arith, lookup-blank k m)
]

make_room-blank : (k : Text) (c : BoundedCache) → make_room k (blank c) ≡ blank_map (make_room k c)
unfolding make_room
make_room-blank k c =
    let kept = remove k c.map in
    ground (
      arith,
      contains_key-blank k c.map,
      remove-blank k c.map,
      length-blank kept,
      evict_oldest-blank kept,
    )

-- Which keys are in the cache, when they were fetched and when they expire does not depend on the
-- values; an answer depends on them in its value alone.
pub get-blank :
    (k : Text) (now : ℕ) (c : BoundedCache)
    → get k now (blank c) ≡ (blank_hit (get k now c).0, blank (get k now c).1)
unfolding get found is_expired remaining_ttl
get-blank k now c = elim (Option-cases (lookup k c.map)) [
  | inl q ↦ ground (arith, lookup-blank k c.map)
  | inr (e, q) ↦ elim (Bool-cases (leb e.ttl (now - e.fetched_at))) [
    | inl old ↦ ground (arith, lookup-blank k c.map, remove-blank k c.map)
    | inr fresh ↦ ground (arith, lookup-blank k c.map)
  ]
]

pub insert-blank :
    (k v : Text) (ttl : Option ℕ) (now : ℕ) (c : BoundedCache)
    → insert k [] ttl now (blank c) ≡ blank (insert k v ttl now c)
unfolding insert Map.insert
insert-blank k v ttl now c = ground (arith, make_room-blank k c, remove-blank k (make_room k c))
