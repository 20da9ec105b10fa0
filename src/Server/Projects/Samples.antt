-- ===== src/Server/Projects/Samples.antt =====
-- Runs of admin requests on a quiet daemon: for the examples.
use remo_broker.Base.{false, ◌≡◌, refl, none, [], ◌∷◌, Text, codes, same, same_iff, ok, arith}
use remo_broker.Base.Texts
use remo_broker.Base.Paths
use remo_broker.Base.Map
use remo_broker.Base.Map.{lookup, insert, remove}
use remo_broker.Manifest
use remo_broker.Manifest.{RawManifest}
use remo_broker.Manifest.Validity.{manifest_of}
use remo_broker.Registry
use remo_broker.Registry.{
  Project, ProjectRegistry, load_named, register, socket_path_for, project_of,
}
use remo_broker.Registry.Disk.{Sockets}
use remo_broker.Registry.Samples.{
  alpha, alpha_path, alpha_loads, fresh, project, registered, bound, alpha_registers,
}
use remo_broker.Server.Admin.{Outside}
use remo_broker.Server.Samples.{outside}
use remo_broker.Server.Projects
use remo_broker.Server.Accept.{created}
use remo_broker.Server.Projects.Races.{orphaned}
use remo_broker.Server.Projects.{
  set_life, looping, start, just_started, System, Reach, Orderly, IsFree, later,
}
use remo_broker.Server.Projects.Agreement.{just_started-IsAgreed, IsAgreed}

abbrev pub quiet : System
quiet = just_started (codes "/run") fresh.cache_defaults []

pub quiet-IsAgreed : IsAgreed quiet
quiet-IsAgreed = just_started-IsAgreed (codes "/run") fresh.cache_defaults []

-- A second project, `beta`.
abbrev pub beta : Text
beta = codes "beta"

abbrev pub beta_raw : RawManifest
beta_raw = record {
  schema_version = 1;
  project = record { name = beta; description = none };
  allowlist = record { secrets = [] };
  cache = none;
}

abbrev pub beta_outside : Outside
beta_outside = record outside {
  files = record {
    is_file = λ p. same p (codes "/p/beta/.remo/broker.toml");
    read_to_string = λ p. ok (codes "toml");
    parse_toml = λ s. ok beta_raw;
  };
}

pub beta_loads :
    load_named beta_outside.files beta (codes "/p/beta")
    ≡ ok (manifest_of beta_raw, codes "/p/beta/.remo/broker.toml")
unfolding load_named Registry.load_manifest Manifest.load Manifest.validate
    Manifest.is_valid_project_name Manifest.is_valid_secret_name Manifest.check_dir_name
    Manifest.check_description Manifest.check_secrets Manifest.check_cache Manifest.check_ttl
    Manifest.check_max_entries Texts.same Texts.contains Texts.starts_with Texts.ends_with
    Texts.is_empty Paths.join Paths.file_name
beta_loads = refl

abbrev pub beta_project : Project
beta_project =
    project_of fresh beta (codes "/p/beta") (manifest_of beta_raw)
      (codes "/p/beta/.remo/broker.toml")

abbrev pub both : ProjectRegistry
both = record fresh { inner = insert beta beta_project registered.inner }

abbrev pub both_bound : Sockets
both_bound = (codes "/run/beta.sock", 0o660) ∷ bound

pub beta_registers :
    register beta_outside.files beta_outside.faults registered beta (codes "/p/beta") bound
    ≡ (ok beta_project, both, both_bound)
unfolding register Registry.insert_project Registry.bind_project_socket Registry.Disk.remove_file
    Registry.Disk.bind Registry.Disk.set_permissions Map.contains_key lookup Map.insert Map.remove
    socket_path_for Registry.resolve_cache_bounds Texts.same Texts.starts_with Texts.ends_with
    Texts.is_empty Paths.join
beta_registers = rw (beta_loads, register) refl

-- Connection 0 has registered `alpha`, then connection 1 has registered `beta`; neither has kept
-- its handle.
abbrev pub spawning : System
spawning = Projects.registers 0 alpha registered bound quiet

abbrev pub spawning_both : System
spawning_both = Projects.registers 1 beta both both_bound spawning

-- Connection 0 has kept its handle.
abbrev pub served : System
served = Projects.keeps 0 alpha 0 spawning_both

pub quiet-IsFree : (name : Text) → IsFree quiet name
quiet-IsFree name c e = cc

pub beta-IsFree : IsFree spawning beta
unfolding Texts.same
beta-IsFree c e = ground (arith, same_iff alpha beta)

pub serves : Orderly quiet served
serves =
    later
      (later
        (later Orderly.here
          (Projects.registered 0 outside alpha alpha_path project registered bound refl
            alpha_registers)
          (quiet-IsFree alpha))
        (Projects.registered 1 beta_outside beta (codes "/p/beta") beta_project both both_bound refl
          beta_registers)
        beta-IsFree)
      (Projects.kept 0 alpha 0 refl) tt

pub served-IsFree : IsFree served alpha
unfolding Texts.same
served-IsFree c e = ground (arith, same_iff alpha beta)

-- `alpha` is registered again while it is being unregistered.
pub alpha_again :
    register outside.files outside.faults
      (record both { inner = remove alpha both.inner })
      alpha
      alpha_path
      both_bound
    ≡ (
      ok project,
      record both { inner = insert alpha project (remove alpha both.inner) },
      (codes "/run/alpha.sock", 0o660) ∷ (codes "/run/beta.sock", 0o660) ∷ [],
    )
unfolding register Registry.insert_project Registry.bind_project_socket Registry.Disk.remove_file
    Registry.Disk.bind Registry.Disk.set_permissions Map.contains_key lookup Map.insert Map.remove
    socket_path_for Registry.resolve_cache_bounds Texts.same Texts.starts_with Texts.ends_with
    Texts.is_empty Paths.join
alpha_again = rw (alpha_loads, register) refl

abbrev pub again : ProjectRegistry
again = record both { inner = insert alpha project (remove alpha both.inner) }

abbrev pub again_bound : Sockets
again_bound = (codes "/run/alpha.sock", 0o660) ∷ (codes "/run/beta.sock", 0o660) ∷ []

-- Connection 2 takes `alpha` out of the registry, while connection 1 has still to keep a handle.
abbrev pub removing : System
removing =
    Projects.removes 2 alpha 0 project (record both { inner = remove alpha both.inner }) served

pub ends : Orderly quiet removing
unfolding lookup insert remove Texts.same Registry.unregister
ends = later serves (Projects.removed 2 alpha 0 project _ refl refl refl) served-IsFree

-- It tells the loop, finds its handle, and aborts it after five seconds.
abbrev pub last_stage : System
last_stage =
    Projects.aborts 2 alpha 0 project 0
      (Projects.takes 2 alpha 0 project (Projects.notifies 2 alpha 0 project removing))

pub ends_last : Orderly quiet last_stage
unfolding lookup insert remove Texts.same
ends_last =
    later
      (later (later ends (Projects.notified 2 alpha 0 project refl) tt)
        (Projects.took 2 alpha 0 project refl) tt)
      (Projects.aborted 2 alpha 0 project 0 refl) tt

pub reaches : Reach quiet served
reaches =
    Reach.later
      (Reach.later
        (Reach.later Reach.here (
          Projects.registered 0 outside alpha alpha_path project registered bound refl
            alpha_registers))
        (Projects.registered 1 beta_outside beta (codes "/p/beta") beta_project both both_bound refl
          beta_registers))
      (Projects.kept 0 alpha 0 refl)

pub Reach-trans : {s t u : System} → Reach s t → Reach t u → Reach s u
Reach-trans r Reach.here = r
Reach-trans r (Reach.later r' st) = Reach.later (Reach-trans r r') st

-- The loop that was left behind begins to accept.
abbrev pub left : System
left = orphaned quiet 1 0 outside alpha project registered bound

abbrev pub accepting : System
accepting = record left { loops = set_life 0 (looping (created false)) left }

pub accepts : Reach left accepting
accepts = Reach.later Reach.here (Projects.moved 0 (looping (created false)) start)
