-- ===== src/Cache/Lookup.antt =====
-- What `get` of src/cache.rs returns, and what an `insert` of another key leaves of an entry.
use remo_broker.Base.{
  ℕ, ◌-◌, ◌≤◌, ◌<◌, ◌≡◌, ◌≢◌, subst, ltb, Bool-cases, ◌⊎◌, inl, inr, Option, none, some, arith,
  Text, same, same_iff, same_refl, if◌then◌else◌, Option-cases, unwrap_or, as_u32, as_secs,
  from_secs,
}
use remo_broker.Base.Map.{Map, lookup, remove, IsUnique, lookup-remove, lookup-insert}
use remo_broker.Cache.{
  CacheEntry, CacheHit, BoundedCache, get, insert, make_room, evict_oldest, len,
}
use remo_broker.Cache.Room.{make_room-cases}
use remo_broker.Cache.Eviction.{IsOldest, evict_oldest_lem}

-- The entry that `insert` writes.
abbrev pub entry : Text → Option ℕ → ℕ → BoundedCache → CacheEntry
entry value ttl at c = record { value = value; fetched_at = at; ttl = unwrap_or c.default_ttl ttl }

pub lookup-insert_self :
    (name value : Text) (ttl : Option ℕ) (at : ℕ) (c : BoundedCache)
    → lookup name (insert name value ttl at c).map ≡ some (entry value ttl at c)
unfolding insert
lookup-insert_self name value ttl at c = rw (lookup-insert, same_refl name)

-- Right after an insert, and until the entry's time to live is over, a lookup of the key returns
-- the value with the whole seconds that are left and changes nothing; from then on it misses and
-- drops the entry.
pub get-insert_self :
    (name value : Text) (ttl : Option ℕ) (at now : ℕ) (c : BoundedCache)
    → let c' = insert name value ttl at c in
      let life = unwrap_or c.default_ttl ttl in
      get name now c' ≡ (
        if ltb (now - at) life
        then (
          some (record { value = value; ttl_seconds = as_u32 (as_secs (life - (now - at))) }),
          c',
        )
        else (none, record c' { map = remove name c'.map }))
unfolding get
get-insert_self name value ttl at now c =
    rw (lookup-insert_self name value ttl at c, get) (ground arith)

-- A hit is a stored value that is not yet past its time to live, and the seconds that it reports
-- do not exceed what is left of it.
pub get_hit :
    (name : Text) (now : ℕ) (c : BoundedCache) (hit : CacheHit)
    → (get name now c).0 ≡ some hit
    → (e : CacheEntry) × (lookup name c.map ≡ some e)
      × (hit.value ≡ e.value)
      × (now - e.fetched_at < e.ttl)
      × (from_secs hit.ttl_seconds ≤ e.ttl - (now - e.fetched_at))
unfolding get
get_hit name now c hit h = elim (Option-cases (lookup name c.map)) [
  | inl q ↦ ground arith
  | inr (e, q) ↦ (e, q, ground arith, ground arith, ground arith)
]

-- Reading another key than the one that an insert wrote reads what room-making left.
lookup-insert-make_room :
    (name value : Text) (ttl : Option ℕ) (at : ℕ) (c : BoundedCache) (j : Text)
    → name ≢ j
    → lookup j (insert name value ttl at c).map ≡ lookup j (make_room name c)
unfolding insert
lookup-insert-make_room name value ttl at c j h = rw lookup-insert (ground (arith, same_iff name j))

-- An eviction takes out the oldest entry and no other.
lookup-evict_oldest_ne :
    (m : Map CacheEntry) (j : Text)
    → IsUnique m
    → (lookup j (evict_oldest m) ≡ lookup j m)
      ⊎ (((e : CacheEntry) × IsOldest m j e) × (lookup j (evict_oldest m) ≡ none))
lookup-evict_oldest_ne m j u = elim (evict_oldest_lem m u) [
  | inl (empty, q) ↦ inl (rw (q, empty))
  | inr (k, e, o, q) ↦ elim (Bool-cases (same k j)) [
    | inl hit ↦
        let here : k ≡ j = (same_iff k j).0 hit in
        inr ((e, subst (λ i. IsOldest m i e) here o), rw (q, lookup-remove, hit))
    | inr miss ↦ inl (rw (q, lookup-remove, miss))
  ]
]

-- An insert leaves the entry of another key as it was, unless the key is new, the cache is at its
-- bound, and that entry is the oldest, which is then gone.
pub lookup-insert_ne :
    (name value : Text) (ttl : Option ℕ) (at : ℕ) (c : BoundedCache) (j : Text)
    → IsUnique c.map
    → name ≢ j
    → (lookup j (insert name value ttl at c).map ≡ lookup j c.map)
      ⊎ ((lookup name c.map ≡ none)
          × (c.max_entries ≤ len c)
          × ((e : CacheEntry) × IsOldest c.map j e)
          × (lookup j (insert name value ttl at c).map ≡ none))
lookup-insert_ne name value ttl at c j u h =
    rw (lookup-insert-make_room name value ttl at c j h) (elim (make_room-cases name c) [
      | inl (e, _, q) ↦ inl (rw (q, lookup-remove) (ground (arith, same_iff name j)))
      | inr (inl (_, _, q)) ↦ inl (rw q)
      | inr (inr (absent, full, q)) ↦ elim (lookup-evict_oldest_ne c.map j u) [
        | inl kept ↦ inl (rw q kept)
        | inr (o, gone) ↦ inr (absent, full, o, rw q gone)
      ]
    ])
