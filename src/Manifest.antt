-- ===== src/Manifest.antt =====
-- src/manifest.rs: the per-project manifest `remo-broker.toml`, its discovery and validation.
-- `toml::from_str` and the file system are arguments; `RawManifest` is what the TOML parser yields.
pub mod Names
pub mod Secrets
pub mod Validity
pub mod Discovery
mod Examples
use remo_broker.Base.{
  ℕ, ◌+◌, Bool, false, ◌&&◌, ◌||◌, not, Option, none, some, List, [], ◌∷◌, ltb, leb, ◌==◌, in_range,
  length, all, find, map, Text, codes, same, contains, is_empty, if◌then◌else◌, Result, ok, ◌>>=◌,
  ◌>>◌, ok_or, map_err, ensure,
}
use remo_broker.Base.Paths.{join, file_name}

abbrev pub project_name_max_len : ℕ
project_name_max_len = 64

abbrev pub description_max_len : ℕ
description_max_len = 256

abbrev pub secret_name_max_len : ℕ
secret_name_max_len = 128

abbrev pub cache_ttl_max : ℕ
cache_ttl_max = 86_400

abbrev pub cache_max_entries_max : ℕ
cache_max_entries_max = 1_024

-- `SUPPORTED_SCHEMA_VERSIONS`
abbrev pub supported_schema_versions : List ℕ
supported_schema_versions = 1 ∷ []

-- `MANIFEST_CANDIDATES`, in priority order
abbrev pub manifest_candidates : List Text
manifest_candidates = codes ".devcontainer/remo-broker.toml" ∷ codes ".remo/broker.toml" ∷ []

-- The I/O and TOML errors are the texts that they print.
pub data ManifestError : Type 0 where
  not_found : Text → ManifestError
  io : Text → Text → ManifestError
  parse : Text → Text → ManifestError
  unsupported_schema_version : ℕ → ManifestError
  invalid_project_name : Text → ManifestError
  name_dir_mismatch : Text → Text → ManifestError
  description_too_long : ℕ → ManifestError
  invalid_secret_name : Text → ManifestError
  duplicate_secret : Text → ManifestError
  cache_ttl_out_of_range : ℕ → ManifestError
  cache_max_entries_out_of_range : ℕ → ManifestError

pub record Project : Type 0 where
  pub name : Text
  pub description : Option Text

pub record Allowlist : Type 0 where
  pub secrets : List Text

pub record Cache : Type 0 where
  pub ttl_seconds : Option ℕ
  pub max_entries : Option ℕ

pub record Manifest : Type 0 where
  pub schema_version : ℕ
  pub project : Project
  pub allowlist : Allowlist
  pub cache : Cache

-- `cache` is the optional table `[cache]`.
pub record RawManifest : Type 0 where
  pub schema_version : ℕ
  pub project : Project
  pub allowlist : Allowlist
  pub cache : Option Cache

unfoldable pub is_ascii_lowercase : ℕ → Bool
is_ascii_lowercase b = in_range b'a' b'z' b

unfoldable pub is_ascii_digit : ℕ → Bool
is_ascii_digit b = in_range b'0' b'9' b

unfoldable pub is_ascii_alphanumeric : ℕ → Bool
unfolding is_ascii_lowercase is_ascii_digit
is_ascii_alphanumeric b = is_ascii_lowercase b || in_range b'A' b'Z' b || is_ascii_digit b

-- The test on the first byte, then on each byte that is left.
unfoldable pub is_valid_project_name : Text → Bool
unfolding is_ascii_lowercase is_ascii_digit
is_valid_project_name [] = false
is_valid_project_name (first ∷ bytes) =
    if ltb project_name_max_len (length (first ∷ bytes))
    then false
    else if not (is_ascii_lowercase first) && not (is_ascii_digit first)
    then false
    else all (λ b. is_ascii_lowercase b || is_ascii_digit b || b == b'_' || b == b'-') bytes

unfoldable pub is_valid_secret_name : Text → Bool
unfolding is_ascii_alphanumeric is_empty
is_valid_secret_name s =
    if is_empty s || ltb secret_name_max_len (length s)
    then false
    else all (λ b. is_ascii_alphanumeric b || b == b'_') s

-- `chars().count()`: the bytes of a UTF-8 text that do not continue a character.
unfoldable pub count_chars : Text → ℕ
count_chars [] = 0
count_chars (b ∷ s) = (if in_range 0x80 0xbf b then 0 else 1) + count_chars s

-- `supported.contains(&version)`
abbrev pub any_equal : List ℕ → ℕ → Bool
any_equal [] v = false
any_equal (w ∷ ws) v = w == v || any_equal ws v

unfoldable pub check_dir_name : Text → Option Text → Result ManifestError (Unit {0})
check_dir_name name none = ok tt
check_dir_name name (some dir) = ensure (same name dir) (name_dir_mismatch name dir)

unfoldable pub check_description : Option Text → Result ManifestError (Unit {0})
check_description none = ok tt
check_description (some desc) =
    ensure (leb (count_chars desc) description_max_len) (description_too_long (count_chars desc))

-- The loop over the allowlist; `seen` is the hash set.
unfoldable pub check_secrets : List Text → List Text → Result ManifestError (Unit {0})
check_secrets seen [] = ok tt
check_secrets seen (name ∷ names) =
    let rest = check_secrets (name ∷ seen) names in
    ensure (is_valid_secret_name name) (invalid_secret_name name)
    >> ensure (not (contains seen name)) (duplicate_secret name)
    >> rest

unfoldable pub check_ttl : Option ℕ → Result ManifestError (Unit {0})
check_ttl none = ok tt
check_ttl (some ttl) = ensure (in_range 1 cache_ttl_max ttl) (cache_ttl_out_of_range ttl)

unfoldable pub check_max_entries : Option ℕ → Result ManifestError (Unit {0})
check_max_entries none = ok tt
check_max_entries (some n) =
    ensure (in_range 1 cache_max_entries_max n) (cache_max_entries_out_of_range n)

-- `Cache::default()` where the table is missing.
unfoldable pub check_cache : Option Cache → Result ManifestError Cache
check_cache none = ok (record { ttl_seconds = none; max_entries = none })
check_cache (some c) = do check_ttl c.ttl_seconds; check_max_entries c.max_entries; ok c

unfoldable pub validate : RawManifest → Option Text → Result ManifestError Manifest
validate raw dir = do
  ensure (any_equal supported_schema_versions raw.schema_version)
      (unsupported_schema_version raw.schema_version)
  ensure (is_valid_project_name raw.project.name) (invalid_project_name raw.project.name)
  check_dir_name raw.project.name dir
  check_description raw.project.description
  check_secrets [] raw.allowlist.secrets
  cache ← check_cache raw.cache
  ok (record {
    schema_version = raw.schema_version;
    project = raw.project;
    allowlist = raw.allowlist;
    cache = cache;
  })

-- What `load` needs of its surroundings: which paths are regular files, their contents, and the
-- TOML parser, each with the message of its error.
pub record Files : Type 0 where
  pub is_file : Text → Bool
  pub read_to_string : Text → Result Text Text
  pub parse_toml : Text → Result Text RawManifest

unfoldable pub from_toml_str :
    (Text → Result Text RawManifest) → Text → Option Text → Result ManifestError Manifest
from_toml_str parse_toml src dir = do
  raw ← map_err (parse (codes "<inline>")) (parse_toml src)
  validate raw dir

unfoldable pub discover : Files → Text → Option Text
discover fs project_path = find fs.is_file (map (join project_path) manifest_candidates)

unfoldable pub load : Files → Text → Result ManifestError (Manifest × Text)
unfolding discover
load fs project_path = do
  path ← ok_or (not_found project_path) (discover fs project_path)
  src ← map_err (io path) (fs.read_to_string path)
  raw ← map_err (parse path) (fs.parse_toml src)
  manifest ← validate raw (file_name project_path)
  ok (manifest, path)
