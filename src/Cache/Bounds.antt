-- ===== src/Cache/Bounds.antt =====
-- The cache's size under `insert` of src/cache.rs, against `max_entries`.
use remo_broker.Base.{ℕ, ◌≤◌, ◌<◌, ap, max, inl, inr, Option, arith, length, Text, Text}
use remo_broker.Base.Map
use remo_broker.Base.Map.{Map, IsUnique, length-remove, length-remove-le, remove-IsUnique}
use remo_broker.Cache.{BoundedCache, get, insert, make_room, len}
use remo_broker.Cache.Room.{make_room-cases, make_room-IsUnique}
use remo_broker.Cache.Eviction.{length-evict_oldest}

pub insert-IsUnique :
    (name value : Text) (ttl : Option ℕ) (at : ℕ) (c : BoundedCache)
    → IsUnique c.map
    → IsUnique (insert name value ttl at c).map
unfolding insert
insert-IsUnique name value ttl at c u =
    Map.insert-IsUnique name _ (make_room name c) (make_room-IsUnique name c u)

pub get-IsUnique :
    (name : Text) (now : ℕ) (c : BoundedCache) → IsUnique c.map → IsUnique (get name now c).1.map
unfolding get
get-IsUnique name now c u = ground (arith, remove-IsUnique name c.map u)

-- Room is made for one more entry.
length-make_room-lt :
    (name : Text) (c : BoundedCache)
    → IsUnique c.map
    → 0 < c.max_entries
    → length (make_room name c) < max c.max_entries (len c)
length-make_room-lt name c u h = elim (make_room-cases name c) [
  | inl (e, at, q) ↦ rw q (omega (arith, length-remove name c.map e u at))
  | inr (inl (_, fits, q)) ↦ rw q (omega arith)
  | inr (inr (_, full, q)) ↦ elim (length-evict_oldest c.map u) [
    | inl empty ↦ absurd (omega (arith, ap length empty))
    | inr less ↦ rw q (omega arith)
  ]
]

-- The new entry included, the cache is no larger than its bound, or than it was where it was
-- already over it (after the bound was lowered).
pub len-insert-le :
    (name value : Text) (ttl : Option ℕ) (at : ℕ) (c : BoundedCache)
    → IsUnique c.map
    → 0 < c.max_entries
    → len (insert name value ttl at c) ≤ max c.max_entries (len c)
unfolding insert Map.insert
len-insert-le name value ttl at c u h =
    omega (arith, length-remove-le name (make_room name c), length-make_room-lt name c u h)
