-- ===== src/Manifest/Validity.antt =====
-- `Manifest::validate` of src/manifest.rs against the rules that docs/manifest-schema.md has for one
-- manifest. That cache numbers do not exceed the broker's defaults, the second half of its rule 6,
-- is not among them: `validate` does not know the defaults.
use remo_broker.Base.{
  ℕ, ◌≤◌, ◌≡◌, ◌↔◌, ap, ◌∙◌, refl, Option, none, some, List, [], ◌∷◌, arith, All, Text, same_iff,
  inl, inr, ok, unwrap_or, Result-cases,
}
use remo_broker.Manifest.{
  Manifest, RawManifest, Cache, validate, check_dir_name, check_description, check_cache, check_ttl,
  check_max_entries, count_chars,
}
use remo_broker.Manifest.Names.{IsProjectName, IsSecretName, is_valid_project_name_iff}
use remo_broker.Manifest.Secrets.{IsDistinct, Avoids, check_secrets_iff}

-- An optional number lies in 1..=max.
abbrev pub InBounds : ℕ → Option ℕ → Type 0
InBounds max none = Unit
InBounds max (some n) = (1 ≤ n) × (n ≤ max)

abbrev pub CacheInBounds : Option Cache → Type 0
CacheInBounds none = Unit
CacheInBounds (some c) = InBounds 86_400 c.ttl_seconds × InBounds 1_024 c.max_entries

abbrev pub NamesDir : Text → Option Text → Type 0
NamesDir name none = Unit
NamesDir name (some dir) = name ≡ dir

abbrev pub FitsDescription : Option Text → Type 0
FitsDescription none = Unit
FitsDescription (some d) = count_chars d ≤ 256

-- What `validate` demands; the numbers of the cache table are held against fixed limits alone.
pub record IsValid (raw : RawManifest) (dir : Option Text) : Type 0 where
  pub version : raw.schema_version ≡ 1
  pub name : IsProjectName raw.project.name
  pub basename : NamesDir raw.project.name dir
  pub description : FitsDescription raw.project.description
  pub secret_names : All IsSecretName raw.allowlist.secrets
  pub distinct : IsDistinct raw.allowlist.secrets
  pub bounds : CacheInBounds raw.cache

-- The raw manifest, an absent cache table filled with absent limits.
abbrev pub manifest_of : RawManifest → Manifest
manifest_of raw = record {
  schema_version = raw.schema_version;
  project = raw.project;
  allowlist = raw.allowlist;
  cache = unwrap_or (record { ttl_seconds = none; max_entries = none }) raw.cache;
}

check_dir_name_iff :
    (name : Text) (dir : Option Text) → (check_dir_name name dir ≡ ok tt) ↔ NamesDir name dir
unfolding check_dir_name
check_dir_name_iff name none = (λ h. tt, λ h. refl)
check_dir_name_iff name (some dir) =
    (λ h. ground (arith, same_iff name dir), λ h. ground (arith, same_iff name dir))

check_description_iff : (d : Option Text) → (check_description d ≡ ok tt) ↔ FitsDescription d
unfolding check_description
check_description_iff none = (λ h. tt, λ h. refl)
check_description_iff (some d) = (λ h. ground arith, λ h. ground arith)

check_ttl_iff : (o : Option ℕ) → (check_ttl o ≡ ok tt) ↔ InBounds 86_400 o
unfolding check_ttl
check_ttl_iff none = (λ h. tt, λ h. refl)
check_ttl_iff (some n) = (λ h. ground arith, λ h. ground arith)

check_max_entries_iff : (o : Option ℕ) → (check_max_entries o ≡ ok tt) ↔ InBounds 1_024 o
unfolding check_max_entries
check_max_entries_iff none = (λ h. tt, λ h. refl)
check_max_entries_iff (some n) = (λ h. ground arith, λ h. ground arith)

check_cache_iff :
    (c : Option Cache) (d : Cache)
    → (check_cache c ≡ ok d)
      ↔ (CacheInBounds c × (d ≡ unwrap_or (record { ttl_seconds = none; max_entries = none }) c))
unfolding check_cache
check_cache_iff none d = (λ h. (tt, ground arith), λ h. ground arith)
check_cache_iff (some c) d =
    let ttl = check_ttl_iff c.ttl_seconds in
    let entries = check_max_entries_iff c.max_entries in
    (
      λ h. ((ttl.0 (ground arith), entries.0 (ground arith)), ground arith),
      λ h. ground (arith, ttl.1 h.0.0, entries.1 h.0.1),
    )

abbrev with_cache : RawManifest → Cache → Manifest
with_cache raw cache = record {
  schema_version = raw.schema_version;
  project = raw.project;
  allowlist = raw.allowlist;
  cache = cache;
}

-- The last two steps of a validation that succeeds.
cache_of_validate :
    (raw : RawManifest) (dir : Option Text) (m : Manifest)
    → validate raw dir ≡ ok m
    → (cache : Cache) × (check_cache raw.cache ≡ ok cache) × (m ≡ with_cache raw cache)
unfolding validate
cache_of_validate raw dir m h = elim (Result-cases (check_cache raw.cache)) [
  | inl (cache, q) ↦ (cache, q, ground arith)
  | inr (e, q) ↦ absurd (ground arith)
]

Avoids-nil : (names : List Text) → Avoids [] names
Avoids-nil [] = tt
Avoids-nil (n ∷ ns) = (λ a. a, Avoids-nil ns)

-- Validation succeeds exactly where the schema version is 1, the project's name is well formed and
-- that of the directory, if one is given, the description has at most 256 characters, the names of
-- the secrets are well formed and distinct, the time to live lies in 1 to 86400 and the number of
-- entries in 1 to 1024, where they are given. It returns what was written, an absent cache table as
-- absent limits. The broker's own cache limits are not consulted.
pub validate_iff :
    (raw : RawManifest) (dir : Option Text) (m : Manifest)
    → (validate raw dir ≡ ok m) ↔ (IsValid raw dir × (m ≡ manifest_of raw))
unfolding validate
validate_iff raw dir m =
    let name = is_valid_project_name_iff raw.project.name in
    let basename = check_dir_name_iff raw.project.name dir in
    let description = check_description_iff raw.project.description in
    let secrets = check_secrets_iff [] raw.allowlist.secrets in
    (
      λ h.
          let s = secrets.0 (ground arith) in
          let (cache, passed, rest) = cache_of_validate raw dir m h in
          let limits = (check_cache_iff raw.cache cache).0 passed in
          (
            record {
              version = ground arith;
              name = name.0 (ground arith);
              basename = basename.0 (ground arith);
              description = description.0 (ground arith);
              secret_names = s.0;
              distinct = s.1;
              bounds = limits.0;
            },
            rest ∙ ap (with_cache raw) limits.1,
          ),
      λ h.
          let v = h.0 in
          ground (
            arith,
            v.version,
            name.1 v.name,
            basename.1 v.basename,
            description.1 v.description,
            secrets.1 (v.secret_names, v.distinct, Avoids-nil raw.allowlist.secrets),
            (check_cache_iff raw.cache (manifest_of raw).cache).1 (v.bounds, refl),
            h.1,
          ),
    )
