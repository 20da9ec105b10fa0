-- ===== src/Config.antt =====
-- src/config.rs: the daemon's configuration, from the file, the command line and the defaults.
-- `toml::from_str` and the file read are arguments.
pub mod Resolution
pub mod Loading
mod Examples
use remo_broker.Base.{
  ℕ, Bool, true, false, not, Option, none, some, Text, codes, ◌==◌, in_range, Result, ok, err,
  ensure, ◌>>=◌, ◌>>◌, map_err, unwrap_or, or_else, from_secs, from_millis,
}

abbrev pub default_config_path : Text
default_config_path = codes "/etc/remo-broker/config.toml"

abbrev pub default_bootstrap_token_path : Text
default_bootstrap_token_path = codes "/etc/remo-broker/bootstrap-token"

abbrev pub default_socket_dir : Text
default_socket_dir = codes "/run/remo-broker"

abbrev pub default_audit_log_path : Text
default_audit_log_path = codes "/var/log/remo-broker/audit.log"

abbrev pub default_cache_ttl_seconds : ℕ
default_cache_ttl_seconds = 900

abbrev pub default_cache_max_entries : ℕ
default_cache_max_entries = 32

abbrev pub default_backend_fetch_timeout_ms : ℕ
default_backend_fetch_timeout_ms = 5_000

abbrev pub bootstrap_env_var : Text
bootstrap_env_var = codes "REMO_BROKER_BOOTSTRAP_TOKEN"

-- The I/O and TOML errors are the texts that they print.
pub data ConfigError : Type 0 where
  file_not_found : Text → ConfigError
  io parse : Text → Text → ConfigError
  cache_ttl_out_of_range : ℕ → ConfigError
  cache_max_entries_out_of_range : ℕ → ConfigError
  backend_timeout_zero : ConfigError

pub data BootstrapSource : Type 0 where
  file : Text → BootstrapSource
  imds env : BootstrapSource

pub data BootstrapSourceKind : Type 0 where
  file imds env : BootstrapSourceKind

pub record Config : Type 0 where
  pub bootstrap : BootstrapSource
  pub socket_dir : Text
  pub audit_log_path : Text
  pub cache_default_ttl : ℕ
  pub cache_default_max_entries : ℕ
  pub backend_fetch_timeout : ℕ
  pub fnox_config_path : Option Text

-- `RawConfig` and `Overrides` have the same fields: what the file says, and what the command line
-- says.
pub record Layer : Type 0 where
  pub bootstrap_source : Option BootstrapSourceKind
  pub bootstrap_token_path : Option Text
  pub socket_dir : Option Text
  pub audit_log_path : Option Text
  pub cache_default_ttl_seconds : Option ℕ
  pub cache_default_max_entries : Option ℕ
  pub backend_fetch_timeout_ms : Option ℕ
  pub fnox_config_path : Option Text

-- `RawConfig::default()` and `Overrides::default()`
abbrev pub empty_layer : Layer
empty_layer = record {
  bootstrap_source = none;
  bootstrap_token_path = none;
  socket_dir = none;
  audit_log_path = none;
  cache_default_ttl_seconds = none;
  cache_default_max_entries = none;
  backend_fetch_timeout_ms = none;
  fnox_config_path = none;
}

abbrev pub source_of : BootstrapSourceKind → Text → BootstrapSource
source_of BootstrapSourceKind.file path = BootstrapSource.file path
source_of BootstrapSourceKind.imds path = BootstrapSource.imds
source_of BootstrapSourceKind.env path = BootstrapSource.env

-- `overrides.x.or(raw.x).unwrap_or(default)`
abbrev pub pick {ℓ} : {A : Type ℓ} → Option A → Option A → A → A
pick override raw default = unwrap_or default (or_else override raw)

-- The checks of the three limits, on the values that were picked.
unfoldable pub check_limits : ℕ → ℕ → ℕ → Result ConfigError (Unit {0})
check_limits ttl entries timeout = do
  ensure (in_range 1 86_400 ttl) (cache_ttl_out_of_range ttl)
  ensure (in_range 1 1_024 entries) (cache_max_entries_out_of_range entries)
  ensure (not (timeout == 0)) backend_timeout_zero

abbrev pub picked_ttl : Layer → Layer → ℕ
picked_ttl raw overrides =
    pick overrides.cache_default_ttl_seconds raw.cache_default_ttl_seconds default_cache_ttl_seconds

abbrev pub picked_entries : Layer → Layer → ℕ
picked_entries raw overrides =
    pick overrides.cache_default_max_entries raw.cache_default_max_entries default_cache_max_entries

abbrev pub picked_timeout : Layer → Layer → ℕ
picked_timeout raw overrides =
    pick overrides.backend_fetch_timeout_ms raw.backend_fetch_timeout_ms
      default_backend_fetch_timeout_ms

-- The fields, before the limits are checked.
abbrev pub settings : Layer → Layer → Config
settings raw overrides = record {
  bootstrap =
      source_of (pick overrides.bootstrap_source raw.bootstrap_source BootstrapSourceKind.file)
        (pick overrides.bootstrap_token_path raw.bootstrap_token_path default_bootstrap_token_path);
  socket_dir = pick overrides.socket_dir raw.socket_dir default_socket_dir;
  audit_log_path = pick overrides.audit_log_path raw.audit_log_path default_audit_log_path;
  cache_default_ttl = from_secs (picked_ttl raw overrides);
  cache_default_max_entries = picked_entries raw overrides;
  backend_fetch_timeout = from_millis (picked_timeout raw overrides);
  fnox_config_path = or_else overrides.fnox_config_path raw.fnox_config_path;
}

unfoldable pub resolve : Layer → Layer → Result ConfigError Config
unfolding check_limits
resolve raw overrides = do
  check_limits (picked_ttl raw overrides) (picked_entries raw overrides)
      (picked_timeout raw overrides)
  ok (settings raw overrides)

-- What `std::fs::read_to_string` may answer.
pub data Reading : Type 0 where
  text : Text → Reading
  missing : Reading
  unreadable : Text → Reading

unfoldable pub from_toml_str : (Text → Result Text Layer) → Text → Layer → Result ConfigError Config
from_toml_str parse_toml src overrides = do
  raw ← map_err (parse (codes "<inline>")) (parse_toml src)
  resolve raw overrides

-- The file's layer, where `required` says that the path was asked for.
unfoldable pub read_layer :
    (Text → Result Text Layer) → Text → Bool → Reading → Result ConfigError Layer
read_layer parse_toml path required (text src) = map_err (parse path) (parse_toml src)
read_layer parse_toml path true missing = err (file_not_found path)
read_layer parse_toml path false missing = ok empty_layer
read_layer parse_toml path required (unreadable e) = err (io path e)

abbrev pub resolved_path : Option Text → Text × Bool
resolved_path none = (default_config_path, false)
resolved_path (some p) = (p, true)

unfoldable pub load :
    (Text → Reading) → (Text → Result Text Layer) → Option Text → Layer → Result ConfigError Config
load read parse_toml path overrides = do
  raw ←
      read_layer parse_toml (resolved_path path).0 (resolved_path path).1
        (read (resolved_path path).0)
  resolve raw overrides
