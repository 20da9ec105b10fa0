-- ===== src/Startup/Examples.antt =====
-- The daemon's start and life at concrete inputs.
use remo_broker.Base.{ℕ, ◌≡◌, refl, none, some, List, [], ◌∷◌, codes, ok, err}
use remo_broker.Base.Texts
use remo_broker.Base.Trim
use remo_broker.Base.Paths
use remo_broker.Base.Map
use remo_broker.Base.Map.{lookup}
use remo_broker.Config
use remo_broker.Config.{empty_layer, settings, missing}
use remo_broker.Bootstrap
use remo_broker.Proto
use remo_broker.Proto.{AdminRequest}
use remo_broker.Registry.Disk
use remo_broker.Registry.Accounting.{Works}
use remo_broker.Registry.Samples.{alpha, alpha_path, no_faults}
use remo_broker.Audit.Bounded.{bounded}
use remo_broker.Server.Admin.{Daemon, Outside, new}
use remo_broker.Server.Setup
use remo_broker.Server.Shutdown.{shut_down}
use remo_broker.Server.Samples.{numbered, outside}
use remo_broker.Startup.{Cli, Host, start, prepare, first_session, run}
use remo_broker.Startup.Soundness.{IsStarted, start_sound}
use remo_broker.Startup.Tidy.{administer}
use remo_broker.Startup.Lifetime.{no_socket_left}

-- No configuration file and no flags.
abbrev cli : Cli
cli = record { config = none; overrides = empty_layer }

abbrev host : Host
host = record {
  read = λ path. missing;
  parse_toml = λ s. err (codes "toml");
  world = outside.world;
  create_dir_all = λ path. ok tt;
  faults = no_faults;
  signal_handlers = ok tt;
}

abbrev started : Daemon ℕ
started = record (new (settings empty_layer empty_layer) (some 3) 0 []) {
  sockets = (codes "/run/remo-broker/admin.sock", 0o600) ∷ [];
}

starts : (start numbered host cli 0 []).0 ≡ ok started
unfolding start prepare run first_session Config.load Config.read_layer Config.resolve
    Config.check_limits Bootstrap.fetch_token Bootstrap.fetch_file Bootstrap.file_token
    Texts.is_empty Trim.trim Trim.trim_start Trim.trim_end Trim.strip_all Trim.strip_space
    Trim.strip_space_back Setup.ensure_socket_dir Setup.bind_admin_socket Setup.admin_bound
    Setup.admin_cleared Setup.admin_path Disk.remove_file Map.contains_key lookup Disk.bind
    Disk.set_permissions Map.insert Map.remove Texts.same Texts.starts_with Texts.ends_with
    Paths.join
starts = refl

start_sound_example : IsStarted numbered host cli started
start_sound_example = start_sound numbered host cli 0 [] started starts

works : Works no_faults
works = record { removes = λ path. refl; chmods = λ path. refl }

-- A project is registered, and nothing else.
abbrev requests : List (Outside × AdminRequest)
requests = (outside, Proto.register alpha alpha_path) ∷ []

no_socket_left_example :
    lookup
      (codes "/run/remo-broker/alpha.sock")
      (shut_down bounded no_faults 9
        (administer numbered requests started)
        (record { tx = []; dropped = 0 })).0.sockets
    ≡ none
unfolding lookup
no_socket_left_example =
    no_socket_left numbered host cli 0 [] started requests no_faults bounded 9
      (record { tx = []; dropped = 0 }) (codes "/run/remo-broker/alpha.sock") starts (works, tt)
      works refl
