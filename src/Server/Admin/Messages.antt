-- ===== src/Server/Admin/Messages.antt =====
-- The `#[error]` texts of the errors that the control plane reports: of src/registry.rs,
-- src/manifest.rs, src/bootstrap.rs and src/backend.rs.
use remo_broker.Base.{[], ◌∷◌, ◌++◌, Text, codes}
use remo_broker.Proto.{Message, text, number}
use remo_broker.Manifest
use remo_broker.Manifest.{ManifestError}
use remo_broker.Registry
use remo_broker.Registry.{RegistryError}
use remo_broker.Registry.Disk.{IoError, missing, other}
use remo_broker.Bootstrap
use remo_broker.Bootstrap.{BootstrapError}
use remo_broker.Server.Session.{BackendError, open_failed, discover_failed}

-- A message inside another, after what stands before it.
abbrev pub nest : Text → Message → Message
nest prefix m = record { format = prefix ++ m.format; values = m.values }

abbrev io_text : IoError → Text
io_text missing = codes "No such file or directory (os error 2)"
io_text (other e) = e

abbrev pub manifest_message : ManifestError → Message
manifest_message (Manifest.not_found path) = record {
  format =
      codes "no manifest under {0}: expected .devcontainer/remo-broker.toml or .remo/broker.toml";
  values = text path ∷ [];
}
manifest_message (Manifest.io path source) = record {
  format = codes "failed to read {path}: {source}";
  values = text path ∷ text source ∷ [];
}
manifest_message (Manifest.parse path source) = record {
  format = codes "failed to parse TOML in {path}: {source}";
  values = text path ∷ text source ∷ [];
}
manifest_message (Manifest.unsupported_schema_version v) = record {
  format = codes "unsupported schema_version: {0} (supported: [1])";
  values = number v ∷ [];
}
manifest_message (Manifest.invalid_project_name name) = record {
  format = codes "invalid project.name {name:?}: must match ^[a-z0-9][a-z0-9_-]{0,63}$";
  values = text name ∷ [];
}
manifest_message (Manifest.name_dir_mismatch name dir) = record {
  format = codes "project.name {name:?} does not match project directory basename {dir:?}";
  values = text name ∷ text dir ∷ [];
}
manifest_message (Manifest.description_too_long len) = record {
  format = codes "project.description too long: {len} chars (max 256)";
  values = number len ∷ [];
}
manifest_message (Manifest.invalid_secret_name name) = record {
  format = codes "invalid allowlist secret name {name:?}: must match ^[A-Za-z0-9_]{1,128}$";
  values = text name ∷ [];
}
manifest_message (Manifest.duplicate_secret name) = record {
  format = codes "duplicate secret name in allowlist: {0:?}";
  values = text name ∷ [];
}
manifest_message (Manifest.cache_ttl_out_of_range value) = record {
  format = codes "cache.ttl_seconds out of range: {value} (must be 1..=86400)";
  values = number value ∷ [];
}
manifest_message (Manifest.cache_max_entries_out_of_range value) = record {
  format = codes "cache.max_entries out of range: {value} (must be 1..=1024)";
  values = number value ∷ [];
}

abbrev pub registry_message : RegistryError → Message
registry_message (Registry.project_exists name) = record {
  format = codes "project {0:?} already registered";
  values = text name ∷ [];
}
registry_message (Registry.project_unknown name) = record {
  format = codes "project {0:?} not registered";
  values = text name ∷ [];
}
registry_message (Registry.manifest_not_found e) =
    nest (codes "manifest not found: ") (manifest_message e)
registry_message (Registry.manifest_invalid e) =
    nest (codes "manifest invalid: ") (manifest_message e)
registry_message (Registry.bind_socket path source) = record {
  format = codes "failed to bind project socket {path}: {source}";
  values = text path ∷ text (io_text source) ∷ [];
}
registry_message (Registry.socket_perms path source) = record {
  format = codes "failed to set project socket permissions on {path}: {source}";
  values = text path ∷ text (io_text source) ∷ [];
}

abbrev pub bootstrap_message : BootstrapError → Message
bootstrap_message (Bootstrap.file_not_found path) = record {
  format = codes "bootstrap token file {path} not found";
  values = text path ∷ [];
}
bootstrap_message (Bootstrap.file_empty path) = record {
  format = codes "bootstrap token file {path} is empty";
  values = text path ∷ [];
}
bootstrap_message (Bootstrap.io path source) = record {
  format = codes "failed to read bootstrap token file {path}: {source}";
  values = text path ∷ text source ∷ [];
}
bootstrap_message (Bootstrap.env_unset var) = record {
  format = codes "env var {var} is not set";
  values = text var ∷ [];
}
bootstrap_message (Bootstrap.env_empty var) = record {
  format = codes "env var {var} is set but empty";
  values = text var ∷ [];
}
bootstrap_message (Bootstrap.imds_invalid_base_url url) = record {
  format = codes "imds bootstrap: invalid base url {0:?}";
  values = text url ∷ [];
}
bootstrap_message (Bootstrap.imds_connect host port source) = record {
  format = codes "imds bootstrap: failed to connect to {host}:{port}: {source}";
  values = text host ∷ number port ∷ text source ∷ [];
}
bootstrap_message (Bootstrap.imds_io source) = record {
  format = codes "imds bootstrap: i/o error: {0}";
  values = text source ∷ [];
}
bootstrap_message (Bootstrap.imds_timed_out endpoint timeout_ms) = record {
  format = codes "imds bootstrap: request to {endpoint} timed out after {timeout_ms} ms";
  values = text endpoint ∷ number timeout_ms ∷ [];
}
bootstrap_message (Bootstrap.imds_http endpoint status body) = record {
  format = codes "imds bootstrap: {endpoint} returned HTTP {status}: {body}";
  values = text endpoint ∷ number status ∷ text body ∷ [];
}
bootstrap_message (Bootstrap.imds_malformed_response endpoint) = record {
  format = codes "imds bootstrap: malformed HTTP response from {endpoint}";
  values = text endpoint ∷ [];
}
bootstrap_message Bootstrap.imds_empty_token = record {
  format = codes "imds bootstrap: metadata token endpoint returned empty body";
  values = [];
}
bootstrap_message Bootstrap.imds_no_instance_role = record {
  format = codes "imds bootstrap: no IAM instance role attached to this instance";
  values = [];
}

abbrev pub session_message : BackendError → Message
session_message (open_failed path source) = record {
  format = codes "failed to open fnox config at {path}: {source}";
  values = text path ∷ text source ∷ [];
}
session_message (discover_failed source) = record {
  format = codes "failed to discover fnox config from current directory: {0}";
  values = text source ∷ [];
}
