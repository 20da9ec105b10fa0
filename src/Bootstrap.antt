-- ===== src/Bootstrap.antt =====
-- src/bootstrap.rs: where the bootstrap token comes from.
-- The file system, the environment and the network are arguments; `BootstrapToken` is its text.
pub mod Http
pub mod Imds
pub mod Url
pub mod Sources
pub mod RoundTrip
mod Examples
use remo_broker.Base.{
  ℕ, none, some, List, [], ◌∷◌, ◌++◌, find, map, not, Text, codes, is_empty, if◌then◌else◌, Result,
  ok, err, ensure, ◌>>=◌, ◌>>◌, unwrap_or, as_millis, from_secs,
}
use remo_broker.Config.{BootstrapSource, file, imds, env, bootstrap_env_var}
use Http.{HttpError, malformed, status_error, Utf8, parse_http_response, lines}
use Url.{parse_base_url}
use remo_broker.Base.Trim.{trim}

abbrev pub imds_base_url : Text
imds_base_url = codes "http://169.254.169.254"

-- `IMDS_TOKEN_TTL_SECONDS`, as the request prints it
abbrev pub imds_token_ttl_seconds : Text
imds_token_ttl_seconds = codes "21600"

abbrev pub imds_timeout : ℕ
imds_timeout = from_secs 2

pub data BootstrapError : Type 0 where
  file_not_found file_empty : Text → BootstrapError
  io : Text → Text → BootstrapError
  env_unset env_empty : Text → BootstrapError
  imds_invalid_base_url : Text → BootstrapError
  imds_connect : Text → ℕ → Text → BootstrapError
  imds_io : Text → BootstrapError
  imds_timed_out : Text → ℕ → BootstrapError
  imds_http : Text → ℕ → Text → BootstrapError
  imds_malformed_response : Text → BootstrapError
  imds_empty_token imds_no_instance_role : BootstrapError

-- What `tokio::fs::read_to_string` may answer.
pub data FileReading : Type 0 where
  content : Text → FileReading
  missing : FileReading
  unreadable : Text → FileReading

-- What `std::env::var` may answer.
pub data EnvReading : Type 0 where
  set : Text → EnvReading
  not_present not_unicode : EnvReading

-- One connection to host and port: it fails, the connect or the exchange runs into the timeout, or
-- the server's bytes are read to the end.
pub data Exchange : Type 0 where
  connect_failed io_failed : Text → Exchange
  timed_out : Exchange
  received : List ℕ → Exchange

pub record World : Type 0 where
  pub read_file : Text → FileReading
  pub env_var : Text → EnvReading
  pub exchange : Text → ℕ → ℕ → Text → Exchange
  pub utf8 : Utf8

unfoldable pub file_token : Text → FileReading → Result BootstrapError Text
file_token path (content s) = if is_empty (trim s) then err (file_empty path) else ok (trim s)
file_token path missing = err (file_not_found path)
file_token path (unreadable e) = err (io path e)

unfoldable pub fetch_file : World → Text → Result BootstrapError Text
unfolding file_token
fetch_file w path = file_token path (w.read_file path)

unfoldable pub fetch_env_with_var : World → Text → Result BootstrapError Text
fetch_env_with_var w var = elim (w.env_var var) [
  | set s ↦ if is_empty s then err (env_empty var) else ok s
  | not_present ↦ err (env_unset var)
  | not_unicode ↦ err (env_empty var)
]

abbrev pub http_error : Text → HttpError → BootstrapError
http_error endpoint malformed = imds_malformed_response endpoint
http_error endpoint (status_error status body) = imds_http endpoint status body

unfoldable pub received_body : World → Text → ℕ → Text → ℕ → Exchange → Result BootstrapError Text
received_body w host port endpoint timeout (connect_failed e) = err (imds_connect host port e)
received_body w host port endpoint timeout timed_out =
    err (imds_timed_out endpoint (as_millis timeout))
received_body w host port endpoint timeout (io_failed e) = err (imds_io e)
received_body w host port endpoint timeout (received raw) = elim (parse_http_response w.utf8 raw) [
  | ok body ↦ ok body
  | err e ↦ err (http_error endpoint e)
]

unfoldable pub imds_round_trip : World → Text → Text → Text → ℕ → Result BootstrapError Text
unfolding received_body
imds_round_trip w base_url endpoint request timeout = elim (parse_base_url base_url) [
  | none ↦ err (imds_invalid_base_url base_url)
  | some (host, port) ↦
      received_body w host port endpoint timeout (w.exchange host port timeout request)
]

abbrev crlf : Text
crlf = 13 ∷ 10 ∷ []

abbrev common_headers : Text
common_headers = codes "Host: 169.254.169.254" ++ crlf

abbrev pub token_endpoint : Text
token_endpoint = codes "/latest/api/token"

abbrev pub credentials_endpoint : Text
credentials_endpoint = codes "/latest/meta-data/iam/security-credentials/"

abbrev pub token_request : Text
token_request =
    codes "PUT "
    ++ (token_endpoint
        ++ (codes " HTTP/1.1"
            ++ (crlf
                ++ (common_headers
                    ++ (codes "X-aws-ec2-metadata-token-ttl-seconds: "
                        ++ (imds_token_ttl_seconds
                            ++ (crlf
                                ++ (codes "Content-Length: 0"
                                    ++ (crlf
                                        ++ (codes "Connection: close" ++ (crlf ++ crlf)))))))))))

abbrev pub get_request : Text → Text → Text
get_request endpoint metadata_token =
    codes "GET "
    ++ (endpoint
        ++ (codes " HTTP/1.1"
            ++ (crlf
                ++ (common_headers
                    ++ (codes "X-aws-ec2-metadata-token: "
                        ++ (metadata_token
                            ++ (crlf ++ (codes "Connection: close" ++ (crlf ++ crlf)))))))))

unfoldable pub fetch_imds_metadata_token : World → Text → ℕ → Result BootstrapError Text
fetch_imds_metadata_token w base_url timeout = do
  body ← imds_round_trip w base_url token_endpoint token_request timeout
  ensure (not (is_empty (trim body))) imds_empty_token
  ok (trim body)

-- The first line that is not blank.
unfoldable pub first_role : Text → Text
first_role body = unwrap_or [] (find (λ l. not (is_empty l)) (map trim (lines body)))

unfoldable pub fetch_imds_role_name : World → Text → Text → ℕ → Result BootstrapError Text
unfolding first_role
fetch_imds_role_name w base_url metadata_token timeout = do
  body ←
      imds_round_trip w base_url credentials_endpoint
        (get_request credentials_endpoint metadata_token) timeout
  ensure (not (is_empty (first_role body))) imds_no_instance_role
  ok (first_role body)

unfoldable pub fetch_imds_role_credentials :
    World → Text → Text → Text → ℕ → Result BootstrapError Text
fetch_imds_role_credentials w base_url metadata_token role timeout =
    let endpoint = credentials_endpoint ++ role in
    imds_round_trip w base_url endpoint (get_request endpoint metadata_token) timeout

unfoldable pub fetch_imds_at : World → Text → ℕ → Result BootstrapError Text
fetch_imds_at w base_url timeout = do
  metadata_token ← fetch_imds_metadata_token w base_url timeout
  role ← fetch_imds_role_name w base_url metadata_token timeout
  fetch_imds_role_credentials w base_url metadata_token role timeout

unfoldable pub fetch_token : World → BootstrapSource → Result BootstrapError Text
fetch_token w (file path) = fetch_file w path
fetch_token w env = fetch_env_with_var w bootstrap_env_var
fetch_token w imds = fetch_imds_at w imds_base_url imds_timeout
