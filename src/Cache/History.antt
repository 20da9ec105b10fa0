-- ===== src/Cache/History.antt =====
-- The cache of src/cache.rs against an unbounded store that never forgets and never expires, over
-- histories of calls.
use remo_broker.Base.{
  ℕ, ◌-◌, ◌<◌, ◌≡◌, refl, inl, inr, Option, none, some, List, [], ◌∷◌, arith, Text, same,
  if◌then◌else◌, unwrap_or,
}
use remo_broker.Base.Map.{lookup, IsUnique, lookup-remove, lookup-insert}
use remo_broker.Cache
use remo_broker.Cache.{
  CacheEntry, CacheHit, BoundedCache, clear, set_config, get, insert, make_room,
}
use remo_broker.Cache.Room.{make_room-cases}
use remo_broker.Cache.Eviction.{lookup-evict_oldest}
use remo_broker.Cache.Bounds.{get-IsUnique, insert-IsUnique}
use remo_broker.Cache.Lookup.{entry, get_hit}

-- The calls that change a cache, each at its time.
pub data Call : Type 0 where
  gets : Text → ℕ → Call
  inserts : Text → Text → Option ℕ → ℕ → Call
  clears : Call
  configures : ℕ → ℕ → Call

unfoldable pub step : BoundedCache → Call → BoundedCache
step c (gets name now) = (get name now c).1
step c (inserts name value ttl now) = insert name value ttl now c
step c clears = clear c
step c (configures max_entries ttl) = set_config max_entries ttl c

unfoldable pub run : BoundedCache → List Call → BoundedCache
run c [] = c
run c (x ∷ xs) = run (step c x) xs

-- The store of the specification: the last insert of each key since the last clear.
pub record Store : Type 0 where
  pub last : Text → Option CacheEntry
  pub default_ttl : ℕ

unfoldable pub store_step : Store → Call → Store
store_step s (gets name now) = s
store_step s (inserts name value ttl now) = record s {
  last = λ j.
      if same name j
      then some (record { value = value; fetched_at = now; ttl = unwrap_or s.default_ttl ttl })
      else s.last j;
}
store_step s clears = record s { last = λ j. none }
store_step s (configures max_entries ttl) = record s { default_ttl = ttl }

unfoldable pub store_run : Store → List Call → Store
store_run s [] = s
store_run s (x ∷ xs) = store_run (store_step s x) xs

abbrev pub empty_store : ℕ → Store
empty_store ttl = record { last = λ j. none; default_ttl = ttl }

pub record Refines (c : BoundedCache) (s : Store) : Type 0 where
  pub unique : IsUnique c.map
  pub default : c.default_ttl ≡ s.default_ttl
  pub holds : (j : Text) (e : CacheEntry) → lookup j c.map ≡ some e → s.last j ≡ some e

lookup-get :
    (name j : Text) (now : ℕ) (c : BoundedCache) (e : CacheEntry)
    → lookup j (get name now c).1.map ≡ some e
    → lookup j c.map ≡ some e
unfolding get
lookup-get name j now c e h = ground (arith, lookup-remove name j c.map)

default_ttl-get :
    (name : Text) (now : ℕ) (c : BoundedCache) → (get name now c).1.default_ttl ≡ c.default_ttl
unfolding get
default_ttl-get name now c = ground arith

lookup-make_room :
    (name j : Text) (c : BoundedCache) (e : CacheEntry)
    → lookup j (make_room name c) ≡ some e
    → lookup j c.map ≡ some e
lookup-make_room name j c e h = elim (make_room-cases name c) [
  | inl (d, _, q) ↦ ground (arith, lookup-remove name j c.map)
  | inr (inl (_, _, q)) ↦ ground arith
  | inr (inr (_, _, q)) ↦ lookup-evict_oldest c.map j e (ground arith)
]

insert-Refines :
    (name value : Text) (ttl : Option ℕ) (now : ℕ) (c : BoundedCache) (s : Store)
    → Refines c s
    → Refines (insert name value ttl now c) (store_step s (inserts name value ttl now))
unfolding store_step
insert-Refines name value ttl now c s r = record {
  unique = insert-IsUnique name value ttl now c r.unique;
  default = unfold insert in r.default;
  holds = λ j e h.
      unfold insert in
      ground (
        arith,
        r.default,
        lookup-insert name j (entry value ttl now c) (make_room name c),
        lookup-make_room name j c e,
        r.holds j e,
      );
}

step-Refines :
    (c : BoundedCache) (s : Store) (x : Call) → Refines c s → Refines (step c x) (store_step s x)
unfolding step
step-Refines c s (inserts name value ttl now) r = insert-Refines name value ttl now c s r
step-Refines c s (gets name now) r = record {
  unique = get-IsUnique name now c r.unique;
  default = unfold store_step in rw default_ttl-get r.default;
  holds = λ j e h. unfold store_step in r.holds j e (lookup-get name j now c e h);
}
step-Refines c s clears r = record {
  unique = tt;
  default = unfold store_step in r.default;
  holds = λ j e h. unfold lookup in cc;
}
step-Refines c s (configures max_entries ttl) r = record {
  unique = unfold set_config in r.unique;
  default = unfold set_config store_step in refl;
  holds = λ j e h. unfold set_config store_step in r.holds j e (unfold set_config in h);
}

pub run-Refines :
    (c : BoundedCache) (s : Store) (xs : List Call)
    → Refines c s
    → Refines (run c xs) (store_run s xs)
unfolding run store_run
run-Refines c s [] r = r
run-Refines c s (x ∷ xs) r = run-Refines (step c x) (store_step s x) xs (step-Refines c s x r)

pub new-Refines : (max_entries ttl : ℕ) → Refines (Cache.new max_entries ttl) (empty_store ttl)
new-Refines max_entries ttl = record {
  unique = tt;
  default = refl;
  holds = λ j e h. unfold lookup in cc;
}

-- After any history of a new cache, a hit returns the value of the last insert of its key since
-- the last clear, younger than the time to live that this insert gave it.
pub get-run_sound :
    (max_entries ttl : ℕ) (xs : List Call) (name : Text) (now : ℕ) (hit : CacheHit)
    → (get name now (run (Cache.new max_entries ttl) xs)).0 ≡ some hit
    → (e : CacheEntry) × ((store_run (empty_store ttl) xs).last name ≡ some e)
      × (hit.value ≡ e.value)
      × (now - e.fetched_at < e.ttl)
get-run_sound max_entries ttl xs name now hit h =
    let (e, at, same_value, fresh, _) = get_hit name now _ hit h in
    let r = run-Refines _ _ xs (new-Refines max_entries ttl) in
    (e, r.holds name e at, same_value, fresh)
