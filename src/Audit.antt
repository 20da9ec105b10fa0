-- ===== src/Audit.antt =====
-- src/audit.rs: audit events, the producer side of the audit channel, and the writer task.
-- The channel is tokio's: `Channel` is what the code relies on. The disk is a list of complete
-- lines; whether the n-th write succeeds is the argument `works`, and a write that fails is taken to
-- leave nothing in the file.
pub mod Bounded
pub mod Sending
pub mod Accounting
pub mod Order
pub mod Pipeline
mod Examples
use remo_broker.Base.{
  ℕ, ◌+◌, ◌%◌, ◌^◌, ◌≡◌, Bool, true, false, Option, List, [], ◌∷◌, ◌++◌, ◌==◌, length, Text,
  if◌then◌else◌,
}

abbrev pub channel_cap : ℕ
channel_cap = 1_000

abbrev pub degraded_buffer_cap : ℕ
degraded_buffer_cap = 1_000

pub data Decision : Type 0 where
  allow deny : Decision

pub data Outcome : Type 0 where
  ok not_found backend_error backend_unreachable : Outcome

-- A timestamp is its nanoseconds, and a process id a number.
pub record FetchEvent : Type 0 where
  pub timestamp : ℕ
  pub project : Text
  pub secret_name : Text
  pub decision : Decision
  pub outcome : Outcome
  pub peer_pid : Option ℕ
  pub peer_uid : Option ℕ
  pub latency_ms : ℕ
  pub backend : Option Text
  pub reason : Option Text

pub record ManifestInvalidEvent : Type 0 where
  pub timestamp : ℕ
  pub project : Text
  pub manifest_path : Text
  pub error : Text

pub record SocketRecoveredEvent : Type 0 where
  pub timestamp : ℕ
  pub project : Text
  pub socket_path : Text

pub record ShutdownEvent : Type 0 where
  pub timestamp : ℕ
  pub reason : Text
  pub events_dropped : ℕ
  pub events_in_degraded_buffer : ℕ

pub data AuditEvent : Type 0 where
  fetch : FetchEvent → AuditEvent
  manifest_invalid : ManifestInvalidEvent → AuditEvent
  socket_recovered : SocketRecoveredEvent → AuditEvent
  shutdown : ShutdownEvent → AuditEvent

-- The answers of `mpsc::Sender::try_send`.
pub data SendResult : Type 0 where
  sent full closed : SendResult

-- The bounded channel: the events in it, oldest first, and `try_send`, which adds one at the end
-- where there is room and changes nothing where it refuses.
pub record Channel : Type 1 where
  pub Tx : Type 0
  pub queued : Tx → List AuditEvent
  pub try_send : AuditEvent → Tx → SendResult × Tx
  pub sent_appends :
      (e : AuditEvent) (t : Tx)
      → (try_send e t).0 ≡ sent
      → queued (try_send e t).1 ≡ queued t ++ (e ∷ [])
  pub full_keeps :
      (e : AuditEvent) (t : Tx) → (try_send e t).0 ≡ full → queued (try_send e t).1 ≡ queued t
  pub closed_keeps :
      (e : AuditEvent) (t : Tx) → (try_send e t).0 ≡ closed → queued (try_send e t).1 ≡ queued t

-- `AuditWriter`: the sender, and the counter of dropped events, a `u64` that wraps.
pub record AuditWriter (Tx : Type 0) : Type 0 where
  pub tx : Tx
  pub dropped : ℕ

abbrev pub sent_to {ℓ} : {Tx : Type 0} {A : Type ℓ} → SendResult × Tx → (SendResult → Tx → A) → A
sent_to (r, t) f = f r t

unfoldable pub record_event : (c : Channel) → AuditEvent → AuditWriter c.Tx → AuditWriter c.Tx
record_event c event w = sent_to (c.try_send event w.tx) (λ r t. elim r [
  | sent ↦ record { tx = t; dropped = w.dropped }
  | full ↦ record { tx = t; dropped = (w.dropped + 1) % 2 ^ 64 }
  | closed ↦ record { tx = t; dropped = w.dropped }
])

-- The log file: its complete lines, and how many writes were tried.
pub record AuditFile : Type 0 where
  pub lines : List AuditEvent
  pub attempts : ℕ

unfoldable pub write_event : (ℕ → Bool) → AuditEvent → AuditFile → Bool × AuditFile
write_event works event f =
    if works f.attempts
    then (true, record { lines = f.lines ++ (event ∷ []); attempts = f.attempts + 1 })
    else (false, record f { attempts = f.attempts + 1 })

-- The writer task's variables.
pub record Writer : Type 0 where
  pub file : AuditFile
  pub degraded : List AuditEvent
  pub written : ℕ

-- `while let Some(buffered) = degraded.front()`: up to the first write that fails.
unfoldable pub drain : (ℕ → Bool) → List AuditEvent → AuditFile → ℕ → Writer
drain works [] f n = record { file = f; degraded = []; written = n }
drain works (buffered ∷ rest) f n =
    let (done, f') = write_event works buffered f in
    elim done [
      | true ↦ drain works rest f' (n + 1)
      | false ↦ record { file = f'; degraded = buffered ∷ rest; written = n }
    ]

abbrev pub pop_front : List AuditEvent → List AuditEvent
pop_front [] = []
pop_front (e ∷ es) = es

-- The oldest goes where the buffer is full.
unfoldable pub push_degraded : List AuditEvent → AuditEvent → List AuditEvent
push_degraded degraded event =
    (if length degraded == degraded_buffer_cap then pop_front degraded else degraded)
    ++ (event ∷ [])

-- The body of the loop of `writer_loop`.
unfoldable pub receive : (ℕ → Bool) → AuditEvent → Writer → Writer
receive works event w =
    let d = drain works w.degraded w.file w.written in
    let (done, f) = write_event works event d.file in
    if done
    then record { file = f; degraded = d.degraded; written = d.written + 1 }
    else record { file = f; degraded = push_degraded d.degraded event; written = d.written }

unfoldable pub writer_loop : (ℕ → Bool) → List AuditEvent → Writer → Writer
writer_loop works [] w = w
writer_loop works (event ∷ events) w = writer_loop works events (receive works event w)

abbrev pub start : List AuditEvent → Writer
start lines = record { file = record { lines = lines; attempts = 0 }; degraded = []; written = 0 }

pub record WriterShutdown : Type 0 where
  pub degraded_buffer_remaining : ℕ
  pub events_written : ℕ

abbrev pub shutdown_of : Writer → WriterShutdown
shutdown_of w = record { degraded_buffer_remaining = length w.degraded; events_written = w.written }
