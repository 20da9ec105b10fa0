-- ===== src/Cache.antt =====
-- src/cache.rs: the bounded in-memory secret cache of one project.
-- The mutex serialises the methods, so each method is one function on the guarded state `Inner`;
-- `Instant::now()` is the argument `now`. A `SecretString` is its text.
pub mod Eviction
mod Room
pub mod Lookup
pub mod Bounds
pub mod Contents
pub mod History
pub mod Blank
mod Examples
use remo_broker.Base.{
  ℕ, ◌-◌, Bool, ◌&&◌, not, Option, none, some, [], ◌∷◌, leb, length, Text, if◌then◌else◌, unwrap_or,
  as_secs, as_u32,
}
use remo_broker.Base.Map
use remo_broker.Base.Map.{Map, lookup, remove, contains_key}

pub record CacheEntry : Type 0 where
  pub value : Text
  pub fetched_at : ℕ
  pub ttl : ℕ

pub record CacheHit : Type 0 where
  pub value : Text
  pub ttl_seconds : ℕ

pub record BoundedCache : Type 0 where
  pub map : Map CacheEntry
  pub max_entries : ℕ
  pub default_ttl : ℕ

abbrev pub new : ℕ → ℕ → BoundedCache
new max_entries default_ttl = record {
  map = [];
  max_entries = max_entries;
  default_ttl = default_ttl;
}

unfoldable pub is_expired : CacheEntry → ℕ → Bool
is_expired e now = leb e.ttl (now - e.fetched_at)

unfoldable pub remaining_ttl : CacheEntry → ℕ → ℕ
remaining_ttl e now = e.ttl - (now - e.fetched_at)

-- What `get` does with the entry that it finds.
unfoldable pub found : Text → ℕ → BoundedCache → CacheEntry → Option CacheHit × BoundedCache
unfolding is_expired remaining_ttl
found name now c e = if is_expired e now then (none, record c { map = remove name c.map }) else (
  some (record { value = e.value; ttl_seconds = as_u32 (as_secs (remaining_ttl e now)) }),
  c,
)

unfoldable pub get : Text → ℕ → BoundedCache → Option CacheHit × BoundedCache
unfolding found
get name now c = elim (lookup name c.map) [ none ↦ (none, c) | some e ↦ found name now c e ]

-- The first of the least: an earlier entry wins over an equal later one.
unfoldable pub older : Text → CacheEntry → Option (Text × CacheEntry) → Option (Text × CacheEntry)
older k e none = some (k, e)
older k e (some (j, f)) = if leb e.fetched_at f.fetched_at then some (k, e) else some (j, f)

-- `iter().min_by_key(|(_, e)| e.fetched_at)`
unfoldable pub min_by_fetched_at : Map CacheEntry → Option (Text × CacheEntry)
unfolding older
min_by_fetched_at [] = none
min_by_fetched_at ((k, e) ∷ m) = older k e (min_by_fetched_at m)

unfoldable pub evict_oldest : Map CacheEntry → Map CacheEntry
unfolding min_by_fetched_at
evict_oldest m = elim (min_by_fetched_at m) [ none ↦ m | some (k, e) ↦ remove k m ]

-- The old entry of the key is removed first, and only a new key evicts.
unfoldable pub make_room : Text → BoundedCache → Map CacheEntry
make_room name c =
    let kept = remove name c.map in
    if not (contains_key name c.map) && leb c.max_entries (length kept)
    then evict_oldest kept
    else kept

unfoldable pub insert : Text → Text → Option ℕ → ℕ → BoundedCache → BoundedCache
unfolding make_room
insert name value ttl now c = record c {
  map =
      Map.insert name
        (record { value = value; fetched_at = now; ttl = unwrap_or c.default_ttl ttl })
        (make_room name c);
}

abbrev pub clear : BoundedCache → BoundedCache
clear c = record c { map = [] }

abbrev pub len : BoundedCache → ℕ
len c = length c.map

unfoldable pub set_config : ℕ → ℕ → BoundedCache → BoundedCache
set_config max_entries default_ttl c = record c {
  max_entries = max_entries;
  default_ttl = default_ttl;
}
