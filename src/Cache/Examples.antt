-- ===== src/Cache/Examples.antt =====
-- The cache properties at concrete inputs, and tests after those of src/cache.rs.
use remo_broker.Base.{
  ℕ, ◌≤◌, ◌<◌, ◌≡◌, ◌≢◌, refl, none, some, [], ◌∷◌, codes, arith, Text, same, max, from_secs, ◌-◌,
}
use remo_broker.Base.Map.{lookup, remove, IsUnique}
use remo_broker.Base.Map
use remo_broker.Cache
use remo_broker.Cache.{BoundedCache, CacheEntry, get, insert, len, evict_oldest, make_room}
use remo_broker.Cache.Bounds.{len-insert-le}
use remo_broker.Cache.History.{inserts, store_run, empty_store, run, step, get-run_sound}

abbrev sec : ℕ → ℕ
sec = from_secs

-- Two entries in a cache for two, `A` the older.
two : BoundedCache
unfolding insert
two =
    insert (codes "B") (codes "2") none (sec 2)
      (insert (codes "A") (codes "1") none (sec 1) (Cache.new 2 (sec 60)))

two-IsUnique : IsUnique two.map
unfolding two lookup Map.insert make_room insert same remove Map.contains_key
two-IsUnique = (refl, (refl, tt))

-- `insert_at_cap_evicts_oldest`
evicts_oldest :
    (lookup (codes "A") (insert (codes "C") (codes "3") none (sec 3) two).map ≡ none)
    × (len (insert (codes "C") (codes "3") none (sec 3) two) ≡ 2)
unfolding two lookup insert evict_oldest Map.insert same remove Map.contains_key
evicts_oldest = (refl, refl)

-- `reinsert_replaces_in_place_without_evicting_others`
reinsert_replaces :
    (get (codes "A") (sec 4) (insert (codes "A") (codes "1-updated") none (sec 3) two)).0
    ≡ some (record { value = codes "1-updated"; ttl_seconds = 59 })
unfolding two lookup insert get Map.insert same remove Map.contains_key
reinsert_replaces = refl

c_not_a : ◌≢◌ {A = Text} (codes "C") (codes "A")
c_not_a h = ground arith

len-insert-le_example :
    len (insert (codes "C") (codes "3") none (sec 3) two) ≤ max two.max_entries (len two)
unfolding two
len-insert-le_example =
    len-insert-le (codes "C") (codes "3") none (sec 3) two two-IsUnique (omega arith)

get-run_sound_example :
    (e : CacheEntry) × ((store_run
          (empty_store (sec 60))
          (inserts (codes "A") (codes "1") none (sec 1) ∷ [])).last
        (codes "A")
      ≡ some e)
    × (codes "1" ≡ e.value)
    × (sec 2 - e.fetched_at < e.ttl)
unfolding run step insert get lookup Map.insert same remove Map.contains_key
get-run_sound_example =
    get-run_sound 2 (sec 60) (inserts (codes "A") (codes "1") none (sec 1) ∷ []) (codes "A") (sec 2)
      (record { value = codes "1"; ttl_seconds = 59 }) refl
