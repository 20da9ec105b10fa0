-- ===== src/Cache/Eviction.antt =====
-- What `evict_oldest` of src/cache.rs takes out.
use remo_broker.Base.{
  ◌+◌, ◌≤◌, ◌≡◌, refl, ap, leb, Bool-cases, ◌⊎◌, inl, inr, Option, none, some, [], ◌∷◌, arith,
  length, Text, same_iff, same_refl, Option-cases,
}
use remo_broker.Base.Map.{
  Map, lookup, remove, IsUnique, lookup-remove, length-remove, remove-IsUnique,
}
use remo_broker.Cache.{CacheEntry, older, min_by_fetched_at, evict_oldest}

-- `k` holds an entry that no other entry is older than.
pub record IsOldest (m : Map CacheEntry) (k : Text) (e : CacheEntry) : Type 0 where
  pub at_key : lookup k m ≡ some e
  pub least : (j : Text) (f : CacheEntry) → lookup j m ≡ some f → e.fetched_at ≤ f.fetched_at

head-IsOldest :
    (i : Text) (d : CacheEntry) (m : Map CacheEntry)
    → ((j : Text) (f : CacheEntry) → lookup j m ≡ some f → d.fetched_at ≤ f.fetched_at)
    → IsOldest ((i, d) ∷ m) i d
unfolding lookup
head-IsOldest i d m h = record { at_key = rw (same_refl i); least = λ j f q. ground (arith, h j f) }

tail-IsOldest :
    (i k : Text) (d e : CacheEntry) (m : Map CacheEntry)
    → lookup i m ≡ none
    → e.fetched_at ≤ d.fetched_at
    → IsOldest m k e
    → IsOldest ((i, d) ∷ m) k e
unfolding lookup
tail-IsOldest i k d e m absent h o = record {
  at_key = ground (arith, same_iff i k, o.at_key);
  least = λ j f q. ground (arith, o.least j f);
}

abbrev Picks : Map CacheEntry → Option (Text × CacheEntry) → Type 0
Picks m none = m ≡ []
Picks m (some (k, e)) = IsOldest m k e

older-Picks :
    (i : Text) (d : CacheEntry) (m : Map CacheEntry) (o : Option (Text × CacheEntry))
    → lookup i m ≡ none
    → Picks m o
    → Picks ((i, d) ∷ m) (older i d o)
unfolding older
older-Picks i d m none absent h =
    head-IsOldest i d m (λ j f p. absurd (unfold lookup in cc (ap (lookup j) h)))
older-Picks i d m (some (k, e)) absent h = elim (Bool-cases (leb d.fetched_at e.fetched_at)) [
  | inl first ↦ rw first (head-IsOldest i d m (λ j f p. ground (arith, h.least j f p)))
  | inr later ↦ rw later (tail-IsOldest i k d e m absent (ground arith) h)
]

min_by_fetched_at-Picks : (m : Map CacheEntry) → IsUnique m → Picks m (min_by_fetched_at m)
unfolding min_by_fetched_at
min_by_fetched_at-Picks [] u = refl
min_by_fetched_at-Picks ((i, d) ∷ m) u =
    older-Picks i d m (min_by_fetched_at m) u.0 (min_by_fetched_at-Picks m u.1)

pub evict_oldest_lem :
    (m : Map CacheEntry)
    → IsUnique m
    → (m ≡ []) × (evict_oldest m ≡ [])
      ⊎ ((k : Text) × (e : CacheEntry) × IsOldest m k e × (evict_oldest m ≡ remove k m))
unfolding evict_oldest
evict_oldest_lem m u = go (min_by_fetched_at m) refl (min_by_fetched_at-Picks m u)
  where
    go :
        (o : Option (Text × CacheEntry))
        → min_by_fetched_at m ≡ o
        → Picks m o
        → (m ≡ []) × (evict_oldest m ≡ [])
          ⊎ ((k : Text) × (e : CacheEntry) × IsOldest m k e × (evict_oldest m ≡ remove k m))
    go none q h = inl (h, rw (q, evict_oldest) h)
    go (some (k, e)) q h = inr (k, e, h, rw (q, evict_oldest))

-- Nothing comes into the map, and no entry that stays changes.
pub lookup-evict_oldest :
    (m : Map CacheEntry) (j : Text) (e : CacheEntry)
    → lookup j (evict_oldest m) ≡ some e
    → lookup j m ≡ some e
unfolding evict_oldest
lookup-evict_oldest m j e h = elim (Option-cases (min_by_fetched_at m)) [
  | inl q ↦ ground arith
  | inr ((k, f), q) ↦ ground (arith, lookup-remove k j m)
]

pub evict_oldest-IsUnique : (m : Map CacheEntry) → IsUnique m → IsUnique (evict_oldest m)
unfolding evict_oldest
evict_oldest-IsUnique m u = elim (Option-cases (min_by_fetched_at m)) [
  | inl q ↦ rw (q, evict_oldest) u
  | inr ((k, f), q) ↦ rw (q, evict_oldest) (remove-IsUnique k m u)
]

pub length-evict_oldest :
    (m : Map CacheEntry) → IsUnique m → (m ≡ []) ⊎ (length (evict_oldest m) + 1 ≡ length m)
length-evict_oldest m u = elim (evict_oldest_lem m u) [
  | inl (empty, _) ↦ inl empty
  | inr (k, e, o, q) ↦ inr (rw q (length-remove k m e u o.at_key))
]
