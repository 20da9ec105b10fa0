-- ===== src/Config/Resolution.antt =====
-- `Config::resolve` of src/config.rs: the precedence of the three layers, and the limits.
use remo_broker.Base.{
  sym, ap, ◌∙◌, or_else, ◌↔◌, ℕ, ◌≤◌, ◌<◌, ◌≡◌, refl, Option, none, some, Text, ok, arith, subst,
  Result-cases, inl, inr, from_secs, from_millis,
}
use remo_broker.Config.{
  Config, Layer, BootstrapSourceKind, resolve, pick, source_of, default_bootstrap_token_path,
  default_socket_dir, default_audit_log_path, check_limits, settings, picked_ttl, picked_entries,
  picked_timeout,
}

-- A value is chosen from the command line, else from the file, else it is the default.
pub data Chosen {ℓ} {A : Type ℓ} (override raw : Option A) (default a : A) : Type ℓ where
  by_override : override ≡ some a → Chosen override raw default a
  by_file : override ≡ none → raw ≡ some a → Chosen override raw default a
  by_default : override ≡ none → raw ≡ none → a ≡ default → Chosen override raw default a

pub pick-Chosen {ℓ} :
    {A : Type ℓ} (override raw : Option A) (default : A)
    → Chosen override raw default (pick override raw default)
pick-Chosen (some a) raw default = by_override refl
pick-Chosen none (some a) default = by_file refl refl
pick-Chosen none none default = by_default refl refl refl

-- What the two layers stand for, and the limits that it keeps.
pub record IsResolved (raw overrides : Layer) (c : Config) : Type 0 where
  pub kind : BootstrapSourceKind
  pub token_path : Text
  pub ttl : ℕ
  pub timeout : ℕ
  pub by_kind : Chosen overrides.bootstrap_source raw.bootstrap_source BootstrapSourceKind.file kind
  pub by_token_path :
      Chosen overrides.bootstrap_token_path raw.bootstrap_token_path default_bootstrap_token_path
        token_path
  pub bootstrap : c.bootstrap ≡ source_of kind token_path
  pub socket_dir : Chosen overrides.socket_dir raw.socket_dir default_socket_dir c.socket_dir
  pub audit_log_path :
      Chosen overrides.audit_log_path raw.audit_log_path default_audit_log_path c.audit_log_path
  pub by_ttl : Chosen overrides.cache_default_ttl_seconds raw.cache_default_ttl_seconds 900 ttl
  pub cache_ttl : c.cache_default_ttl ≡ from_secs ttl
  pub entries :
      Chosen overrides.cache_default_max_entries raw.cache_default_max_entries 32
        c.cache_default_max_entries
  pub by_timeout :
      Chosen overrides.backend_fetch_timeout_ms raw.backend_fetch_timeout_ms 5_000 timeout
  pub fetch_timeout : c.backend_fetch_timeout ≡ from_millis timeout
  pub fnox_config : c.fnox_config_path ≡ or_else overrides.fnox_config_path raw.fnox_config_path
  pub limits :
      (1 ≤ ttl)
      × (ttl ≤ 86_400)
      × (1 ≤ c.cache_default_max_entries)
      × (c.cache_default_max_entries ≤ 1_024)
      × (0 < timeout)

check_limits_sound :
    (ttl entries timeout : ℕ)
    → check_limits ttl entries timeout ≡ ok tt
    → (1 ≤ ttl) × (ttl ≤ 86_400) × (1 ≤ entries) × (entries ≤ 1_024) × (0 < timeout)
unfolding check_limits
check_limits_sound ttl entries timeout h =
    (ground arith, ground arith, ground arith, ground arith, ground arith)

resolve-eq-ok :
    (raw overrides : Layer) (c : Config)
    → resolve raw overrides ≡ ok c
    → (u : Unit {0}) × (check_limits
          (picked_ttl raw overrides)
          (picked_entries raw overrides)
          (picked_timeout raw overrides)
        ≡ ok u)
      × (settings raw overrides ≡ c)
unfolding resolve
resolve-eq-ok raw overrides c h =
    elim (Result-cases (
      check_limits (picked_ttl raw overrides) (picked_entries raw overrides)
        (picked_timeout raw overrides))) [
          | inl (u, q) ↦ (u, q, ground arith)
          | inr (e, q) ↦ absurd (ground arith)
        ]

settings-IsResolved :
    (raw overrides : Layer)
    → check_limits
        (picked_ttl raw overrides)
        (picked_entries raw overrides)
        (picked_timeout raw overrides)
      ≡ ok tt
    → IsResolved raw overrides (settings raw overrides)
settings-IsResolved raw overrides h = record {
  kind = pick overrides.bootstrap_source raw.bootstrap_source BootstrapSourceKind.file;
  token_path =
      pick overrides.bootstrap_token_path raw.bootstrap_token_path default_bootstrap_token_path;
  ttl = picked_ttl raw overrides;
  timeout = picked_timeout raw overrides;
  by_kind = pick-Chosen _ _ _;
  by_token_path = pick-Chosen _ _ _;
  bootstrap = refl;
  socket_dir = pick-Chosen _ _ _;
  audit_log_path = pick-Chosen _ _ _;
  by_ttl = pick-Chosen _ _ _;
  cache_ttl = refl;
  entries = pick-Chosen _ _ _;
  by_timeout = pick-Chosen _ _ _;
  fetch_timeout = refl;
  fnox_config = refl;
  limits = check_limits_sound _ _ _ h;
}

-- Every configuration that is accepted takes each setting from the command line, else from the
-- file, else from the defaults, and keeps the limits.
pub resolve_sound :
    (raw overrides : Layer) (c : Config) → resolve raw overrides ≡ ok c → IsResolved raw overrides c
resolve_sound raw overrides c h =
    let (_, passed, e) = resolve-eq-ok raw overrides c h in
    subst (IsResolved raw overrides) e (settings-IsResolved raw overrides passed)

-- What is chosen is what `pick` picks.
Chosen-pick {ℓ} :
    {A : Type ℓ} (override raw : Option A) (default a : A)
    → Chosen override raw default a
    → a ≡ pick override raw default
Chosen-pick override raw default a (by_override e) = ground arith
Chosen-pick override raw default a (by_file e f) = ground arith
Chosen-pick override raw default a (by_default e f q) = ground arith

check_limits_complete :
    (ttl entries timeout : ℕ)
    → (1 ≤ ttl) × (ttl ≤ 86_400) × (1 ≤ entries) × (entries ≤ 1_024) × (0 < timeout)
    → check_limits ttl entries timeout ≡ ok tt
unfolding check_limits
check_limits_complete ttl entries timeout h = ground arith

Config-ext :
    (c d : Config)
    → c.bootstrap ≡ d.bootstrap
    → c.socket_dir ≡ d.socket_dir
    → c.audit_log_path ≡ d.audit_log_path
    → c.cache_default_ttl ≡ d.cache_default_ttl
    → c.cache_default_max_entries ≡ d.cache_default_max_entries
    → c.backend_fetch_timeout ≡ d.backend_fetch_timeout
    → c.fnox_config_path ≡ d.fnox_config_path
    → c ≡ d
Config-ext c d p q r s t u v = λ i. record {
  bootstrap = p i;
  socket_dir = q i;
  audit_log_path = r i;
  cache_default_ttl = s i;
  cache_default_max_entries = t i;
  backend_fetch_timeout = u i;
  fnox_config_path = v i;
}

resolve_complete :
    (raw overrides : Layer) (c : Config) → IsResolved raw overrides c → resolve raw overrides ≡ ok c
unfolding resolve
resolve_complete raw overrides c r =
    let ttl : picked_ttl raw overrides ≡ r.ttl = sym (Chosen-pick _ _ _ _ r.by_ttl) in
    let entries : picked_entries raw overrides ≡ c.cache_default_max_entries =
      sym (Chosen-pick _ _ _ _ r.entries) in
    let timeout : picked_timeout raw overrides ≡ r.timeout =
      sym (Chosen-pick _ _ _ _ r.by_timeout) in
    let passed : check_limits (picked_ttl raw overrides) (picked_entries raw overrides)
          (picked_timeout raw overrides)
        ≡ ok tt =
      rw (ttl, entries, timeout) (check_limits_complete _ _ _ r.limits) in
    let whole : settings raw overrides ≡ c =
      Config-ext (settings raw overrides) c
        (sym (
          r.bootstrap
          ∙ ap (λ kind. source_of kind r.token_path) (Chosen-pick _ _ _ _ r.by_kind)
          ∙ ap (source_of _) (Chosen-pick _ _ _ _ r.by_token_path)))
        (sym (Chosen-pick _ _ _ _ r.socket_dir)) (sym (Chosen-pick _ _ _ _ r.audit_log_path))
        (ap from_secs ttl ∙ sym r.cache_ttl) entries (ap from_millis timeout ∙ sym r.fetch_timeout)
        (sym r.fnox_config) in
    rw (passed, resolve) (ap ok whole)

-- A configuration is accepted exactly where it takes each setting from the command line, else from
-- the file, else from the defaults, and keeps the limits.
pub resolve_iff :
    (raw overrides : Layer) (c : Config)
    → (resolve raw overrides ≡ ok c) ↔ IsResolved raw overrides c
resolve_iff raw overrides c = (resolve_sound raw overrides c, resolve_complete raw overrides c)
