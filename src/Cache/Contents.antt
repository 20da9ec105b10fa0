-- ===== src/Cache/Contents.antt =====
-- Where the entries come from that `get` and `insert` of src/cache.rs leave.
use remo_broker.Base.{
  ℕ, ◌≡◌, ◌⊎◌, inl, inr, Option, some, arith, Text, same, same_iff, Option-cases, Bool-cases,
}
use remo_broker.Base.Map.{lookup, lookup-remove, lookup-insert}
use remo_broker.Cache.Lookup.{entry}
use remo_broker.Cache.{CacheEntry, BoundedCache, get, insert, make_room, found}
use remo_broker.Cache.Room.{make_room-cases}
use remo_broker.Cache.Eviction.{lookup-evict_oldest}

-- A lookup writes nothing.
pub lookup-get :
    (name : Text) (now : ℕ) (c : BoundedCache) (j : Text) (e : CacheEntry)
    → lookup j (get name now c).1.map ≡ some e
    → lookup j c.map ≡ some e
unfolding get found
lookup-get name now c j e h = elim (Option-cases (lookup name c.map)) [
  | inl q ↦ ground arith
  | inr (f, q) ↦ ground (arith, lookup-remove name j c.map)
]

lookup-make_room :
    (name : Text) (c : BoundedCache) (j : Text) (e : CacheEntry)
    → lookup j (make_room name c) ≡ some e
    → lookup j c.map ≡ some e
lookup-make_room name c j e h = elim (make_room-cases name c) [
  | inl (f, _, q) ↦ ground (arith, lookup-remove name j c.map)
  | inr (inl (_, _, q)) ↦ ground arith
  | inr (inr (_, _, q)) ↦ ground (arith, lookup-evict_oldest c.map j e)
]

-- An entry after an insert is the one that was written, or was there before.
pub lookup-insert_of :
    (name value : Text) (ttl : Option ℕ) (at : ℕ) (c : BoundedCache) (j : Text) (e : CacheEntry)
    → lookup j (insert name value ttl at c).map ≡ some e
    → ((name ≡ j) × (e.value ≡ value)) ⊎ (lookup j c.map ≡ some e)
unfolding insert
lookup-insert_of name value ttl at c j e h = elim (Bool-cases (same name j)) [
  | inl here ↦ inl (
    (same_iff name j).0 here,
    ground (arith, lookup-insert name j (entry value ttl at c) (make_room name c)),
  )
  | inr there ↦ inr (
      lookup-make_room name c j e
        (ground (arith, lookup-insert name j (entry value ttl at c) (make_room name c))))
]
