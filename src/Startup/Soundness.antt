-- ===== src/Startup/Soundness.antt =====
-- What `main` of src/main.rs has checked when the daemon serves, and when it starts.
use remo_broker.Base.{
  ℕ, ◌≡◌, refl, sym, ap, ◌∙◌, subst, Option, none, some, Text, ok, err, >>=-eq-ok, Result-cases,
  inl, inr, arith, same_refl,
}
use remo_broker.Base.Map.{lookup, insert, remove, contains_key, lookup-insert}
use remo_broker.Config.{Config, Layer, load, read_layer, resolved_path}
use remo_broker.Config.Resolution.{IsResolved, resolve_sound}
use remo_broker.Bootstrap.{fetch_token}
use remo_broker.Bootstrap.Sources.{Origin, fetch_token_iff}
use remo_broker.Registry.Disk.{Sockets, Faults, remove_file, bind, set_permissions}
use remo_broker.Server.{Backend}
use remo_broker.Server.Admin.{Daemon, new}
use remo_broker.Server.Admin.Serving.{IsServing}
use remo_broker.Server.Setup.{
  bind_admin_socket, admin_bound, admin_cleared, ensure_socket_dir, admin_path,
}
use remo_broker.Server.Setup.AdminSocket.{bind_admin_socket_lem}
use remo_broker.Startup.{Cli, Host, first_session, prepare, run, start}

bind_admin_socket_sound :
    (faults : Faults) (path : Text) (s : Sockets)
    → (bind_admin_socket faults path s).0 ≡ ok tt
    → lookup path (bind_admin_socket faults path s).1 ≡ some 0o600
unfolding bind_admin_socket admin_cleared admin_bound remove_file bind set_permissions contains_key
bind_admin_socket_sound faults path s h = ground (
  arith,
  same_refl path,
  lookup-insert path path 0o600 (insert path faults.bind_mode s),
  lookup-insert path path 0o600 (insert path faults.bind_mode (remove path s)),
)

-- The session that the configuration asks for.
abbrev IsSession : (b : Backend) → Option Text → Option b.Fnox → Type 0
IsSession b (some path) session =
    (fnox : b.Fnox) × (b.open_at path ≡ ok fnox) × (session ≡ some fnox)
IsSession b none (some fnox) = b.discover ≡ ok fnox
IsSession b none none = (e : Text) × (b.discover ≡ err e)

first_session_sound :
    (b : Backend) (path : Option Text) (session : Option b.Fnox)
    → first_session b path ≡ ok session
    → IsSession b path session
unfolding first_session
first_session_sound b (some path) session h = elim (Result-cases (b.open_at path)) [
  | inl (fnox, q) ↦ (fnox, q, ground arith)
  | inr (e, q) ↦ absurd (ground arith)
]
first_session_sound b none (some fnox) h = elim (Result-cases b.discover) [
  | inl (found, q) ↦ ground arith
  | inr (e, q) ↦ absurd (ground arith)
]
first_session_sound b none none h = elim (Result-cases b.discover) [
  | inl (found, q) ↦ absurd (ground arith)
  | inr (e, q) ↦ (e, q)
]

-- What is known of a daemon that serves: every setting is from the command line, else from the
-- file that was read, else the default, and within its limits; the configured source holds a
-- token; the session is the one that was asked for; the handlers of the stop signals are
-- installed; and the admin socket is its user's alone.
pub record IsStarted (b : Backend) (host : Host) (cli : Cli) (d : Daemon b.Fnox) : Type 0 where
  pub raw : Layer
  pub read :
      let (path, required) = resolved_path cli.config in
      read_layer host.parse_toml path required (host.read path) ≡ ok raw
  pub resolved : IsResolved raw cli.overrides d.config
  pub token : Text
  pub origin : Origin host.world d.config.bootstrap token
  pub session : IsSession b d.config.fnox_config_path d.backend
  pub handlers : host.signal_handlers ≡ ok tt
  pub admin_socket : lookup (admin_path d.config.socket_dir) d.sockets ≡ some 0o600
  pub serving : IsServing d

-- A daemon without projects serves.
empty-IsServing :
    {F : Type 0} (c : Config) (session : Option F) (now : ℕ) (s sockets : Sockets)
    → IsServing (record (new c session now s) { sockets = sockets })
unfolding lookup
empty-IsServing c session now s sockets = record {
  consistent = record { unique = tt; entries = λ name p h. absurd (ground arith) };
  loops = λ name. refl;
}

run_sound :
    {F : Type 0} (host : Host) (d : Daemon F)
    → (run host d).0 ≡ ok tt
    → (host.signal_handlers ≡ ok tt)
      × (lookup (admin_path d.config.socket_dir) (run host d).1.sockets ≡ some 0o600)
      × ((run host d).1 ≡ record d { sockets = (run host d).1.sockets })
unfolding run ensure_socket_dir
run_sound host d h = elim (Result-cases (host.create_dir_all d.config.socket_dir)) [
  | inr (e, q) ↦ absurd (ground arith)
  | inl (_, q) ↦
      let path = admin_path d.config.socket_dir in
      let bound = bind_admin_socket_sound host.faults path d.sockets in
      elim (Result-cases (bind_admin_socket host.faults path d.sockets).0) [
        | inr (e, r) ↦ absurd (ground arith)
        | inl (_, r) ↦ (ground arith, ground arith, ground arith)
      ]
]

prepare_sound :
    (b : Backend) (host : Host) (cli : Cli) (config : Config) (session : Option b.Fnox)
    → prepare b host cli ≡ ok (config, session)
    → (load host.read host.parse_toml cli.config cli.overrides ≡ ok config)
      × ((token : Text) × (fetch_token host.world config.bootstrap ≡ ok token))
      × (first_session b config.fnox_config_path ≡ ok session)
unfolding prepare
prepare_sound b host cli config session h =
    elim (Result-cases (load host.read host.parse_toml cli.config cli.overrides)) [
      | inr (e, q) ↦ absurd (ground arith)
      | inl (c, q) ↦ elim (Result-cases (fetch_token host.world c.bootstrap)) [
        | inr (e, t) ↦ absurd (ground arith)
        | inl (token, t) ↦ elim (Result-cases (first_session b c.fnox_config_path)) [
          | inr (e, r) ↦ absurd (ground arith)
          | inl (found, r) ↦
              let e : c ≡ config = ground arith in
              (
                q ∙ ap ok e,
                (token, subst (λ c. fetch_token host.world c.bootstrap ≡ ok token) e t),
                ground arith,
              )
        ]
      ]
    ]

pub start_runs :
    (b : Backend) (host : Host) (cli : Cli) (now : ℕ) (s : Sockets) (d : Daemon b.Fnox)
    (config : Config) (session : Option b.Fnox)
    → prepare b host cli ≡ ok (config, session)
    → (start b host cli now s).0 ≡ ok d
    → ((run host (new config session now s)).0 ≡ ok tt)
      × ((run host (new config session now s)).1 ≡ d)
unfolding start
start_runs b host cli now s d config session q h =
    elim (Result-cases (run host (new config session now s)).0) [
      | inr (e, r) ↦ absurd (ground arith)
      | inl (_, r) ↦ (r, ground arith)
    ]

prepared-IsStarted :
    (b : Backend) (host : Host) (cli : Cli) (now : ℕ) (s t : Sockets) (config : Config)
    (session : Option b.Fnox)
    → prepare b host cli ≡ ok (config, session)
    → host.signal_handlers ≡ ok tt
    → lookup (admin_path config.socket_dir) t ≡ some 0o600
    → IsStarted b host cli (record (new config session now s) { sockets = t })
unfolding load
prepared-IsStarted b host cli now s t config session q handlers admin_socket =
    let (loaded, (token, fetched), opened) = prepare_sound b host cli config session q in
    let (raw, read, resolved) = >>=-eq-ok (read_layer host.parse_toml _ _ _) _ loaded in
    record {
      raw = raw;
      read = read;
      resolved = resolve_sound raw cli.overrides config resolved;
      token = token;
      origin = (fetch_token_iff host.world config.bootstrap token).0 fetched;
      session = first_session_sound b config.fnox_config_path session opened;
      handlers = handlers;
      admin_socket = admin_socket;
      serving = empty-IsServing config session now s t;
    }

-- A daemon that has started has read its configuration, from the command line and the file, has
-- fetched a token from the source that is configured, has opened the session that is configured,
-- has installed the signal handlers, and has bound the admin socket with mode 0600; and its
-- registry, accept loops and sockets are in step.
pub start_sound :
    (b : Backend) (host : Host) (cli : Cli) (now : ℕ) (s : Sockets) (d : Daemon b.Fnox)
    → (start b host cli now s).0 ≡ ok d
    → IsStarted b host cli d
unfolding start
start_sound b host cli now s d h = elim (Result-cases (prepare b host cli)) [
  | inr (e, q) ↦ absurd (ground arith)
  | inl ((config, backend), q) ↦
      let (served, daemon) = start_runs b host cli now s d config backend q h in
      let (handlers, admin_socket, same_daemon) =
        run_sound host (new config backend now s) served in
      subst (IsStarted b host cli) (sym same_daemon ∙ daemon)
        (prepared-IsStarted b host cli now s _ config backend q handlers admin_socket)
]

-- Where the preparation succeeds and no call of `Server::run` fails, the daemon serves, stale
-- socket or not.
pub start_lem :
    (b : Backend) (host : Host) (cli : Cli) (now : ℕ) (s : Sockets) (config : Config)
    (session : Option b.Fnox)
    → prepare b host cli ≡ ok (config, session)
    → host.create_dir_all config.socket_dir ≡ ok tt
    → host.faults.remove_fault (admin_path config.socket_dir) ≡ none
    → host.faults.bind_fault (admin_path config.socket_dir) ≡ none
    → host.faults.chmod_fault (admin_path config.socket_dir) ≡ none
    → host.signal_handlers ≡ ok tt
    → (d : Daemon b.Fnox) × ((start b host cli now s).0 ≡ ok d) × (d.config ≡ config)
unfolding start run ensure_socket_dir
start_lem b host cli now s config session q made r bd c handlers =
    let path = admin_path config.socket_dir in
    let (bound, _, _) = bind_admin_socket_lem host.faults path s r bd c in
    (
      record (new config session now s) { sockets = (bind_admin_socket host.faults path s).1 },
      ground arith,
      refl,
    )
