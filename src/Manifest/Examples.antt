-- ===== src/Manifest/Examples.antt =====
-- The manifest properties at concrete inputs, and tests after those of src/manifest.rs.
use remo_broker.Base.{◌↔◌, ◌≡◌, ◌↔◌, refl, none, some, [], ◌∷◌, codes, ok, err, same}
use remo_broker.Base.Paths
use remo_broker.Manifest.{
  RawManifest, Files, validate, load, duplicate_secret, check_dir_name, check_secrets, check_cache,
  check_ttl, check_description, is_valid_project_name, is_valid_secret_name, cache_ttl_out_of_range,
}
use remo_broker.Manifest.Validity.{IsValid, manifest_of, validate_iff}
use remo_broker.Manifest.Discovery.{IsLoaded, load_iff}

abbrev minimal : RawManifest
minimal = record {
  schema_version = 1;
  project = record { name = codes "myrepo"; description = none };
  allowlist = record { secrets = codes "GITHUB_TOKEN" ∷ [] };
  cache = none;
}

-- `parses_minimal_manifest`
minimal_valid : validate minimal (some (codes "myrepo")) ≡ ok (manifest_of minimal)
unfolding validate is_valid_project_name is_valid_secret_name check_dir_name check_description
    check_secrets check_cache remo_broker.Base.Texts.same remo_broker.Base.Texts.contains
minimal_valid = refl

-- `rejects_duplicate_secrets`
duplicates :
    validate
      (record minimal { allowlist = record { secrets = codes "FOO" ∷ codes "FOO" ∷ [] } })
      none
    ≡ err (duplicate_secret (codes "FOO"))
unfolding validate is_valid_project_name is_valid_secret_name check_dir_name check_description
    check_secrets check_cache remo_broker.Base.Texts.same remo_broker.Base.Texts.contains
duplicates = refl

-- `rejects_cache_ttl_out_of_range_high`
ttl_too_long :
    validate
      (record minimal { cache = some (record { ttl_seconds = some 86_401; max_entries = none }) })
      none
    ≡ err (cache_ttl_out_of_range 86_401)
unfolding validate is_valid_project_name is_valid_secret_name check_dir_name check_description
    check_secrets check_cache check_ttl remo_broker.Base.Texts.same remo_broker.Base.Texts.contains
ttl_too_long = refl

validate_iff_example :
    (validate minimal (some (codes "myrepo")) ≡ ok (manifest_of minimal))
    ↔ (IsValid minimal (some (codes "myrepo")) × (manifest_of minimal ≡ manifest_of minimal))
validate_iff_example = validate_iff minimal (some (codes "myrepo")) (manifest_of minimal)

-- One project directory with the manifest in its second place.
abbrev disk : Files
disk = record {
  is_file = λ p. same p (codes "/p/myrepo/.remo/broker.toml");
  read_to_string = λ p. ok (codes "toml");
  parse_toml = λ s. ok minimal;
}

load-minimal :
    load disk (codes "/p/myrepo") ≡ ok (manifest_of minimal, codes "/p/myrepo/.remo/broker.toml")
unfolding load validate is_valid_project_name is_valid_secret_name check_dir_name check_description
    check_secrets check_cache remo_broker.Base.Texts.same remo_broker.Base.Texts.contains Paths.join
    Paths.file_name remo_broker.Base.Texts.starts_with remo_broker.Base.Texts.ends_with
    remo_broker.Base.Texts.is_empty
load-minimal = refl

load_iff_example :
    (load disk (codes "/p/myrepo") ≡ ok (manifest_of minimal, codes "/p/myrepo/.remo/broker.toml"))
    ↔ IsLoaded disk (codes "/p/myrepo") (manifest_of minimal) (codes "/p/myrepo/.remo/broker.toml")
load_iff_example =
    load_iff disk (codes "/p/myrepo") (manifest_of minimal) (codes "/p/myrepo/.remo/broker.toml")
