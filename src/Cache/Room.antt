-- ===== src/Cache/Room.antt =====
-- The three ways in which `insert` of src/cache.rs finds room for an entry.
use remo_broker.Base.{
  ◌≤◌, ◌<◌, ◌≡◌, leb, Bool-cases, ◌⊎◌, inl, inr, none, some, arith, Text, Option-cases,
}
use remo_broker.Base.Map.{lookup, remove, contains_key, IsUnique, remove_absent, remove-IsUnique}
use remo_broker.Cache.{CacheEntry, BoundedCache, make_room, evict_oldest, len}
use remo_broker.Cache.Eviction.{evict_oldest-IsUnique}

abbrev pub Replaces : Text → BoundedCache → Type 0
Replaces name c =
    (e : CacheEntry) × (lookup name c.map ≡ some e) × (make_room name c ≡ remove name c.map)

abbrev pub Fits : Text → BoundedCache → Type 0
Fits name c = (lookup name c.map ≡ none) × (len c < c.max_entries) × (make_room name c ≡ c.map)

abbrev pub Evicts : Text → BoundedCache → Type 0
Evicts name c =
    (lookup name c.map ≡ none) × (c.max_entries ≤ len c) × (make_room name c ≡ evict_oldest c.map)

pub make_room-cases :
    (name : Text) (c : BoundedCache) → Replaces name c ⊎ Fits name c ⊎ Evicts name c
unfolding make_room contains_key
make_room-cases name c = elim (Option-cases (lookup name c.map)) [
  | inr (e, q) ↦ inl (e, q, rw (q, make_room, contains_key))
  | inl q ↦
      let same_map = remove_absent name c.map q in
      elim (Bool-cases (leb c.max_entries (len c))) [
        | inl full ↦ inr (inr (q, ground arith, rw (same_map, make_room, contains_key, q, full)))
        | inr free ↦ inr (inl (q, ground arith, rw (same_map, make_room, contains_key, q, free)))
      ]
]

pub make_room-IsUnique :
    (name : Text) (c : BoundedCache) → IsUnique c.map → IsUnique (make_room name c)
make_room-IsUnique name c u = elim (make_room-cases name c) [
  | inl (e, _, q) ↦ rw q (remove-IsUnique name c.map u)
  | inr (inl (_, _, q)) ↦ rw q u
  | inr (inr (_, _, q)) ↦ rw q (evict_oldest-IsUnique c.map u)
]
