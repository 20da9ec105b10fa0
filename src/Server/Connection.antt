-- ===== src/Server/Connection.antt =====
-- The line protocol of src/server.rs: `read_line_capped` and the loops of
-- `handle_admin_connection` and `handle_project_connection`, which differ in the requests they
-- parse and in what answers them. A connection is the bytes that its client sends, what the client
-- does then, and whether each answer can be written. The code waits for a client without a limit.
pub mod Framing
pub mod Lines
pub mod Sessions
use remo_broker.Base.{
  ℕ, zero, suc, ◌+◌, ◌==◌, ◌&&◌, not, Bool, List, [], ◌∷◌, Text, codes, length, ends_with, is_empty,
  if◌then◌else◌, Result, ok, err, Option, none, some,
}
use remo_broker.Audit.{Channel}
use remo_broker.Proto
use remo_broker.Proto.{
  Message, AdminRequest, AdminResponse, ProjectRequest, ProjectResponse, refused, failed, error,
  max_message_bytes, text,
}
use remo_broker.Server.{Backend, Peer, Times}
use remo_broker.Server.Admin.{Daemon, Outside, dispatch_admin}
use remo_broker.Server.Fetch.{Plane, dispatch_project}

abbrev pub newline : ℕ
newline = 10

abbrev consed : ℕ → Text × Text → Text × Text
consed b (line, rest) = (b ∷ line, rest)

-- `reader.take(limit).read_until(b'\n', buf)`: the line, with its newline, and what is left.
unfoldable pub read_until : ℕ → Text → Text × Text
read_until zero s = ([], s)
read_until (suc limit) [] = ([], [])
read_until (suc limit) (b ∷ s) =
    let rest = read_until limit s in if b == newline then (b ∷ [], s) else consed b rest

-- A message that is too long is the error that closes the connection.
abbrev pub too_long : ℕ → Message
too_long max_bytes = record {
  format = codes "admin request exceeds max message size of {max_bytes} bytes";
  values = Proto.number max_bytes ∷ [];
}

unfoldable pub read_line_capped : ℕ → Text → Result Message (Text × Text)
unfolding read_until
read_line_capped max_bytes s =
    let (line, rest) = read_until max_bytes s in
    if length line == max_bytes && not (ends_with line newline)
    then err (too_long max_bytes)
    else ok (line, rest)

-- What the client does when it has sent its bytes: it closes its side, its side breaks, or it stays
-- and sends nothing.
pub data Client : Type 0 where
  closes breaks stays : Client

-- How a connection ends: the client is done, reading failed, a message was too long, or an answer
-- could not be written. With `waiting` it does not end.
pub data Closed : Type 0 where
  eof read_failed waiting write_failed out_of_fuel : Closed
  refused_line : Message → Closed

pub record Served (S R : Type 0) : Type 0 where
  pub closed : Closed
  pub responses : List R
  pub state : S

abbrev pub answered : {S R : Type 0} → R → Served S R → Served S R
answered r s = record s { responses = r ∷ s.responses }

-- What the two loops do with a line.
pub record Service (S Q R : Type 0) : Type 0 where
  -- `serde_json::from_slice`
  pub parse : Text → Result Text Q
  -- the n-th request of the connection
  pub dispatch : ℕ → Q → S → R × S
  pub malformed : Text → R
  -- whether the n-th answer is written
  pub delivers : ℕ → Bool
  pub client : Client

-- The bytes ran out before a newline: what then becomes of the read.
unfoldable pub cut_off : Client → Text → Option Closed
cut_off closes line = none
cut_off breaks line = if ends_with line newline then none else some read_failed
cut_off stays line = if ends_with line newline then none else some waiting

module _ {S Q R : Type 0} (v : Service S Q R) where
  unfoldable pub respond : ℕ → Text → S → R × S
  respond n line s = elim (v.parse line) [ ok q ↦ v.dispatch n q s | err e ↦ (v.malformed e, s) ]

  -- The loop, from the n-th line on.
  unfoldable pub serve : ℕ → ℕ → Text → S → Served S R
  unfolding read_line_capped respond cut_off
  serve zero n stream s = record { closed = out_of_fuel; responses = []; state = s }
  serve (suc fuel) n stream s = elim (read_line_capped max_message_bytes stream) [
    | err e ↦ record { closed = refused_line e; responses = []; state = s }
    | ok (line, rest) ↦ elim (cut_off v.client line) [
      | some closed ↦ record { closed = closed; responses = []; state = s }
      | none ↦
          if is_empty line
          then record { closed = eof; responses = []; state = s }
          else let (r, s') = respond n line s in
            if v.delivers n
            then answered r (serve fuel (n + 1) rest s')
            else record { closed = write_failed; responses = []; state = s' }
    ]
  ]

abbrev pub malformed_request : Text → Message
malformed_request e = record { format = codes "malformed request: {e}"; values = text e ∷ [] }

-- A line takes a byte at least.
abbrev pub enough : Text → ℕ
enough stream = length stream + 1

unfoldable pub handle_admin_connection :
    (b : Backend)
    → (Text → Result Text AdminRequest)
    → (ℕ → Outside)
    → (ℕ → Bool)
    → Client
    → Text
    → Daemon b.Fnox
    → Served (Daemon b.Fnox) AdminResponse
unfolding serve
handle_admin_connection b parse outside delivers client stream d =
    serve
      (record {
        parse = parse;
        dispatch = λ n q s. dispatch_admin b (outside n) q s;
        malformed = λ e. refused (error Proto.AdminErrorCode.protocol_error (malformed_request e));
        delivers = delivers;
        client = client;
      })
      (enough stream) 0 stream d

unfoldable pub handle_project_connection :
    (c : Channel)
    → (b : Backend) → Option b.Fnox
    → Text
    → (Text → Result Text ProjectRequest)
    → Peer
    → (ℕ → Times)
    → (ℕ → Bool)
    → Client
    → Text
    → Plane c
    → Served (Plane c) ProjectResponse
unfolding serve
handle_project_connection c b session version parse peer times delivers client stream s =
    serve
      (record {
        parse = parse;
        dispatch = λ n q s. dispatch_project c b session version q peer (times n) s;
        malformed = λ e. failed (error Proto.ProjectErrorCode.protocol_error (malformed_request e));
        delivers = delivers;
        client = client;
      })
      (enough stream) 0 stream s
