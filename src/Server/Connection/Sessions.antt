-- ===== src/Server/Connection/Sessions.antt =====
-- The admin and project connections of src/server.rs as wholes.
use remo_broker.Base.{
  ℕ, ◌<◌, ◌≡◌, Bool, true, Option, List, Text, length, length-append, [], ◌∷◌, All, Result, arith,
}
use remo_broker.Proto
use remo_broker.Proto.{AdminRequest, ProjectRequest, refused, failed, error}
use remo_broker.Audit.{Channel}
use remo_broker.Server.{Backend, Peer, Times}
use remo_broker.Server.Admin.{Daemon, Outside, dispatch_admin}
use remo_broker.Server.Fetch.{Plane, dispatch_project}
use remo_broker.Server.Connection.{
  Client, Service, enough, newline, handle_admin_connection, handle_project_connection,
  malformed_request,
}
use remo_broker.Server.Connection.Lines.{encode, IsMessage, in_turn, serve-encode}

length-encode : (ls : List Text) → length ls < enough (encode ls)
length-encode [] = omega arith
length-encode (l ∷ ls) =
    rw (length-append l (newline ∷ encode ls)) (omega (arith, length-encode ls))

module _ (b : Backend) (parse : Text → Result Text AdminRequest) (outside : ℕ → Outside)
    (delivers : ℕ → Bool) (client : Client) where
  abbrev pub admin_service : Service (Daemon b.Fnox) AdminRequest Proto.AdminResponse
  admin_service = record {
    parse = parse;
    dispatch = λ n q s. dispatch_admin b (outside n) q s;
    malformed = λ e. refused (error Proto.AdminErrorCode.protocol_error (malformed_request e));
    delivers = delivers;
    client = client;
  }

  -- Where every answer is written, an admin client that sends messages within the limit gets them
  -- answered in order, each on the daemon that the last has left.
  pub handle_admin_connection-encode :
      (ls : List Text) (d : Daemon b.Fnox)
      → ((k : ℕ) → delivers k ≡ true)
      → All IsMessage ls
      → handle_admin_connection b parse outside delivers client (encode ls) d
        ≡ in_turn admin_service 0 ls d
  unfolding handle_admin_connection
  handle_admin_connection-encode ls d written messages =
      serve-encode admin_service (enough (encode ls)) 0 ls d written messages (length-encode ls)

module _ (c : Channel) (b : Backend) (session : Option b.Fnox) (version : Text)
    (parse : Text → Result Text ProjectRequest) (peer : Peer) (times : ℕ → Times)
    (delivers : ℕ → Bool) (client : Client) where
  abbrev pub project_service : Service (Plane c) ProjectRequest Proto.ProjectResponse
  project_service = record {
    parse = parse;
    dispatch = λ n q s. dispatch_project c b session version q peer (times n) s;
    malformed = λ e. failed (error Proto.ProjectErrorCode.protocol_error (malformed_request e));
    delivers = delivers;
    client = client;
  }

  -- A project client that sends messages within the limit, and stays to have every answer written,
  -- gets them answered in order, each on the state that the last has left, and the connection ends
  -- as the client does.
  pub handle_project_connection-encode :
      (ls : List Text) (s : Plane c)
      → ((k : ℕ) → delivers k ≡ true)
      → All IsMessage ls
      → handle_project_connection c b session version parse peer times delivers client (encode ls) s
        ≡ in_turn project_service 0 ls s
  unfolding handle_project_connection
  handle_project_connection-encode ls s written messages =
      serve-encode project_service (enough (encode ls)) 0 ls s written messages (length-encode ls)
