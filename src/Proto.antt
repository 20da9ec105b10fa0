-- ===== src/Proto.antt =====
-- src/proto/: the requests and responses of the two sockets. The JSON text of a message is
-- serde's; a request is what serde parses, and a response is what it is given.
use remo_broker.Base.{ℕ, Bool, true, false, Option, none, some, List, Text}

abbrev pub protocol_version : ℕ
protocol_version = 1

abbrev pub max_message_bytes : ℕ
max_message_bytes = 65_536

pub data Value : Type 0 where
  text : Text → Value
  number : ℕ → Value

-- A message as its format string and the values that fill it.
pub record Message : Type 0 where
  pub format : Text
  pub values : List Value

pub record ErrorResponse (Code : Type 0) : Type 0 where
  pub ok : Bool
  pub code : Code
  pub message : Message
  pub retry_after_seconds : Option ℕ

-- `ErrorResponse::new`
abbrev pub error : {C : Type 0} → C → Message → ErrorResponse C
error code message = record {
  ok = false;
  code = code;
  message = message;
  retry_after_seconds = none;
}

-- `ErrorResponse::with_retry_after`, which nothing in the daemon calls.
abbrev pub with_retry_after : {C : Type 0} → ErrorResponse C → ℕ → ErrorResponse C
with_retry_after response seconds = record response { retry_after_seconds = some seconds }

pub data ProjectRequest : Type 0 where
  get : Text → ProjectRequest
  ping info : ProjectRequest

pub data ProjectErrorCode : Type 0 where
  denied not_found backend_error backend_unreachable : ProjectErrorCode
  rate_limited protocol_error internal_error peer_unexpected : ProjectErrorCode

abbrev pub ProjectError : Type 0
ProjectError = ErrorResponse ProjectErrorCode

pub record GetResponse : Type 0 where
  pub ok : Bool
  pub value : Option Text
  pub value_b64 : Option Text
  pub ttl_seconds : ℕ

-- `GetResponse::utf8`
abbrev pub utf8 : Text → ℕ → GetResponse
utf8 value ttl_seconds = record {
  ok = true;
  value = some value;
  value_b64 = none;
  ttl_seconds = ttl_seconds;
}

-- `GetResponse::binary`
abbrev pub binary : Text → ℕ → GetResponse
binary value_b64 ttl_seconds = record {
  ok = true;
  value = none;
  value_b64 = some value_b64;
  ttl_seconds = ttl_seconds;
}

pub record PingResponse : Type 0 where
  pub ok : Bool
  pub broker_version : Text
  pub protocol_version : ℕ
  pub project : Text

-- `PingResponse::new`
abbrev pub ping_response : Text → Text → PingResponse
ping_response broker_version project = record {
  ok = true;
  broker_version = broker_version;
  protocol_version = protocol_version;
  project = project;
}

pub record InfoResponse : Type 0 where
  pub ok : Bool
  pub project : Text
  pub allowlist : List Text
  pub schema_version : ℕ

-- `InfoResponse::new`
abbrev pub info_response : Text → List Text → ℕ → InfoResponse
info_response project allowlist schema_version = record {
  ok = true;
  project = project;
  allowlist = allowlist;
  schema_version = schema_version;
}

pub data ProjectResponse : Type 0 where
  got : GetResponse → ProjectResponse
  ponged : PingResponse → ProjectResponse
  informed : InfoResponse → ProjectResponse
  failed : ProjectError → ProjectResponse

pub data AdminRequest : Type 0 where
  register : Text → Text → AdminRequest
  unregister reload : Text → AdminRequest
  status rotate_bootstrap : AdminRequest

pub data AdminErrorCode : Type 0 where
  manifest_invalid manifest_not_found project_unknown project_exists : AdminErrorCode
  bootstrap_error protocol_error internal_error : AdminErrorCode

abbrev pub AdminError : Type 0
AdminError = ErrorResponse AdminErrorCode

pub record RegisterResponse : Type 0 where
  pub ok : Bool
  pub socket_path : Text

-- `RegisterResponse::new`
abbrev pub register_response : Text → RegisterResponse
register_response socket_path = record { ok = true; socket_path = socket_path }

pub record ReloadResponse : Type 0 where
  pub ok : Bool
  pub allowlist : List Text

-- `ReloadResponse::new`
abbrev pub reload_response : List Text → ReloadResponse
reload_response allowlist = record { ok = true; allowlist = allowlist }

pub data BootstrapMode : Type 0 where
  file imds env : BootstrapMode

pub record ProjectStatus : Type 0 where
  pub name : Text
  pub socket_path : Text
  pub allowlist_size : ℕ
  pub cache_entries : ℕ

pub record StatusResponse : Type 0 where
  pub ok : Bool
  pub broker_version : Text
  pub protocol_version : ℕ
  pub uptime_seconds : ℕ
  pub bootstrap_mode : BootstrapMode
  pub projects : List ProjectStatus

-- `StatusResponse::new`
abbrev pub status_response : Text → ℕ → BootstrapMode → List ProjectStatus → StatusResponse
status_response broker_version uptime_seconds bootstrap_mode projects = record {
  ok = true;
  broker_version = broker_version;
  protocol_version = protocol_version;
  uptime_seconds = uptime_seconds;
  bootstrap_mode = bootstrap_mode;
  projects = projects;
}

pub data BackendAuthState : Type 0 where
  ok : BackendAuthState

pub record RotateBootstrapResponse : Type 0 where
  pub ok : Bool
  pub backend_auth : BackendAuthState

-- `RotateBootstrapResponse::ok`
abbrev pub rotate_response : RotateBootstrapResponse
rotate_response = record { ok = true; backend_auth = BackendAuthState.ok }

-- `OkResponse` has the one field `ok`, always true.
pub data AdminResponse : Type 0 where
  registered : RegisterResponse → AdminResponse
  done : AdminResponse
  reloaded : ReloadResponse → AdminResponse
  reported : StatusResponse → AdminResponse
  rotated : RotateBootstrapResponse → AdminResponse
  refused : AdminError → AdminResponse
