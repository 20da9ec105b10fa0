-- ===== src/Audit/Bounded.antt =====
-- A channel that meets `Channel` of src/audit.rs: a queue that holds a thousand events and is
-- never closed.
use remo_broker.Base.{◌≡◌, List, [], ◌∷◌, ◌++◌, length, ltb, arith, if◌then◌else◌}
use remo_broker.Audit.{AuditEvent, Channel, SendResult, sent, full, closed, channel_cap}

unfoldable pub send : AuditEvent → List AuditEvent → SendResult × List AuditEvent
send e t = if ltb (length t) channel_cap then (sent, t ++ (e ∷ [])) else (full, t)

pub send-sent :
    (e : AuditEvent) (t : List AuditEvent) → (send e t).0 ≡ sent → (send e t).1 ≡ t ++ (e ∷ [])
unfolding send
send-sent e t h = ground arith

pub send-full : (e : AuditEvent) (t : List AuditEvent) → (send e t).0 ≡ full → (send e t).1 ≡ t
unfolding send
send-full e t h = ground arith

pub send-closed : (e : AuditEvent) (t : List AuditEvent) → (send e t).0 ≡ closed → (send e t).1 ≡ t
unfolding send
send-closed e t h = absurd (ground arith)

pub send_open : (e : AuditEvent) (t : List AuditEvent) → ¬ ((send e t).0 ≡ closed)
unfolding send
send_open e t h = ground arith

abbrev pub bounded : Channel
bounded = record {
  Tx = List AuditEvent;
  queued = λ t. t;
  try_send = send;
  sent_appends = send-sent;
  full_keeps = send-full;
  closed_keeps = send-closed;
}
