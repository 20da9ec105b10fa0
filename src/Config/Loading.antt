-- ===== src/Config/Loading.antt =====
-- `Config::load` of src/config.rs where there is no file to read.
use remo_broker.Base.{◌≡◌, Option, none, some, Text, Result, err, arith}
use remo_broker.Config.{
  Config, Layer, Reading, missing, load, read_layer, resolve, resolved_path, empty_layer,
  file_not_found, ConfigError,
}

abbrev pub without_file : Option Text → Layer → Result ConfigError Config
without_file none overrides = resolve empty_layer overrides
without_file (some p) overrides = err (file_not_found p)

-- A missing file is an error where the operator named it; the default path may be missing, and
-- then the command line and the defaults make the configuration.
pub load_missing :
    (read : Text → Reading) (parse_toml : Text → Result Text Layer) (path : Option Text)
    (overrides : Layer)
    → read (resolved_path path).0 ≡ missing
    → load read parse_toml path overrides ≡ without_file path overrides
unfolding load read_layer
load_missing read parse_toml none overrides h = ground arith
load_missing read parse_toml (some p) overrides h = ground arith
