-- ===== src/Server/Setup/Examples.antt =====
-- The setup properties at concrete inputs.
use remo_broker.Base.{◌≡◌, ◌≢◌, refl, none, some, [], ◌∷◌, codes, same, same_iff, ok, arith}
use remo_broker.Base.Texts
use remo_broker.Base.Paths
use remo_broker.Base.Map
use remo_broker.Base.Map.{lookup}
use remo_broker.Manifest
use remo_broker.Manifest.{Files, RawManifest}
use remo_broker.Manifest.Validity.{manifest_of}
use remo_broker.Registry
use remo_broker.Registry.{Project, load_named, register, socket_path_for, project_of}
use remo_broker.Registry.Disk
use remo_broker.Registry.Samples.{alpha, no_faults, fresh}
use remo_broker.Server.Setup.{admin_path}
use remo_broker.Server.Setup.AdminSocket.{admin, register_takes_admin}

-- A project named `admin`, as its directory is.
abbrev admin_raw : RawManifest
admin_raw = record {
  schema_version = 1;
  project = record { name = admin; description = none };
  allowlist = record { secrets = [] };
  cache = none;
}

abbrev admin_disk : Files
admin_disk = record {
  is_file = λ p. same p (codes "/p/admin/.remo/broker.toml");
  read_to_string = λ p. ok (codes "toml");
  parse_toml = λ s. ok admin_raw;
}

admin_loads :
    load_named admin_disk admin (codes "/p/admin")
    ≡ ok (manifest_of admin_raw, codes "/p/admin/.remo/broker.toml")
unfolding load_named Registry.load_manifest Manifest.load Manifest.validate
    Manifest.is_valid_project_name Manifest.is_valid_secret_name Manifest.check_dir_name
    Manifest.check_description Manifest.check_secrets Manifest.check_cache Manifest.check_ttl
    Manifest.check_max_entries Texts.same Texts.contains Texts.starts_with Texts.ends_with
    Texts.is_empty Paths.join Paths.file_name
admin_loads = refl

abbrev admin_project : Project
admin_project =
    project_of fresh admin (codes "/p/admin") (manifest_of admin_raw)
      (codes "/p/admin/.remo/broker.toml")

abbrev with_admin : Disk.Sockets
with_admin = (codes "/run/admin.sock", 0o600) ∷ []

admin_registers :
    (register admin_disk no_faults fresh admin (codes "/p/admin") with_admin).0 ≡ ok admin_project
unfolding register Registry.insert_project Registry.bind_project_socket Registry.Disk.remove_file
    Registry.Disk.bind Registry.Disk.set_permissions Map.contains_key lookup Map.insert Map.remove
    socket_path_for Registry.resolve_cache_bounds Texts.same Texts.starts_with Texts.ends_with
    Texts.is_empty Paths.join
admin_registers = rw (admin_loads, register) refl

register_takes_admin_example :
    lookup
      (admin_path (codes "/run"))
      (register admin_disk no_faults fresh admin (codes "/p/admin") with_admin).2
    ≡ some 0o660
register_takes_admin_example =
    register_takes_admin admin_disk no_faults fresh (codes "/p/admin") admin_project with_admin
      admin_registers

apart : alpha ≢ admin
apart e = ground (arith, (same_iff alpha admin).1 e)
