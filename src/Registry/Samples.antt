-- ===== src/Registry/Samples.antt =====
-- A project on a disk without faults, a registry, and what becomes of it: for the examples.
use remo_broker.Base.{◌≡◌, refl, subst, none, some, [], ◌∷◌, codes, Text, ok, same, from_secs}
use remo_broker.Base.Texts
use remo_broker.Base.Paths
use remo_broker.Base.Map
use remo_broker.Base.Map.{lookup}
use remo_broker.Registry
use remo_broker.Registry.{
  Project, ProjectRegistry, load_named, register, socket_path_for, project_of,
}
use remo_broker.Registry.Disk.{Faults, Sockets}
use remo_broker.Registry.Invariant.{IsConsistent, register-IsConsistent, new-IsConsistent}
use remo_broker.Manifest
use remo_broker.Manifest.{Files, RawManifest, Manifest}
use remo_broker.Manifest.Validity.{manifest_of}

abbrev pub alpha : Text
alpha = codes "alpha"

abbrev pub alpha_path : Text
alpha_path = codes "/p/alpha"

abbrev pub raw : RawManifest
raw = record {
  schema_version = 1;
  project = record { name = alpha; description = none };
  allowlist = record { secrets = codes "FOO" ∷ [] };
  cache = some (record { ttl_seconds = none; max_entries = some 64 });
}

abbrev pub disk : Files
disk = record {
  is_file = λ p. same p (codes "/p/alpha/.remo/broker.toml");
  read_to_string = λ p. ok (codes "toml");
  parse_toml = λ s. ok raw;
}

abbrev pub no_faults : Faults
no_faults = record {
  remove_fault = λ p. none;
  bind_fault = λ p. none;
  chmod_fault = λ p. none;
  bind_mode = 0o755;
}

abbrev pub fresh : ProjectRegistry
fresh = Registry.new (codes "/run") (record { max_entries = 32; ttl = from_secs 900 })

abbrev pub manifest_path : Text
manifest_path = codes "/p/alpha/.remo/broker.toml"

pub alpha_loads : load_named disk alpha alpha_path ≡ ok (manifest_of raw, manifest_path)
unfolding load_named Registry.load_manifest Manifest.load Manifest.validate
    Manifest.is_valid_project_name Manifest.is_valid_secret_name Manifest.check_dir_name
    Manifest.check_description Manifest.check_secrets Manifest.check_cache Manifest.check_ttl
    Manifest.check_max_entries Texts.same Texts.contains Texts.starts_with Texts.ends_with
    Texts.is_empty Paths.join Paths.file_name
alpha_loads = refl

abbrev pub project : Project
project = project_of fresh alpha alpha_path (manifest_of raw) manifest_path

abbrev pub registered : ProjectRegistry
registered = record fresh { inner = (alpha, project) ∷ [] }

abbrev pub bound : Sockets
bound = (codes "/run/alpha.sock", 0o660) ∷ []

pub alpha_registers :
    register disk no_faults fresh alpha alpha_path [] ≡ (ok project, registered, bound)
unfolding register Registry.insert_project Registry.bind_project_socket Registry.Disk.remove_file
    Registry.Disk.bind Registry.Disk.set_permissions Map.contains_key lookup Map.insert Map.remove
    socket_path_for Registry.resolve_cache_bounds Texts.same Texts.starts_with Texts.ends_with
    Texts.is_empty Paths.join
alpha_registers = rw (alpha_loads, register) refl

pub fresh-IsConsistent : IsConsistent fresh []
fresh-IsConsistent = new-IsConsistent (codes "/run") fresh.cache_defaults []

pub registered-IsConsistent : IsConsistent registered bound
registered-IsConsistent =
    subst (λ r. IsConsistent r.1 r.2) alpha_registers
      (register-IsConsistent disk no_faults fresh alpha alpha_path [] fresh-IsConsistent)
