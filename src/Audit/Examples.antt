-- ===== src/Audit/Examples.antt =====
-- The audit properties at concrete inputs, and tests of the writer task.
use remo_broker.Audit.Pipeline.{
  Pipeline, produce, consume, Run, none_yet, further, IsPiped, Run-IsPiped,
}
use remo_broker.Base.{ℕ, ◌≡◌, refl, Bool, true, [], ◌∷◌, codes, arith, ltb, not}
use remo_broker.Audit.{
  AuditEvent, record_event, shutdown, Writer, writer_loop, receive, drain, write_event,
  push_degraded, start,
}
use remo_broker.Audit.Bounded.{bounded, send, send_open}

abbrev event : ℕ → AuditEvent
event n = shutdown (record {
  timestamp = n;
  reason = codes "sigterm";
  events_dropped = 0;
  events_in_degraded_buffer = 0;
})

-- A disk whose first two writes fail.
abbrev late : ℕ → Bool
late n = not (ltb n 2)

late_run : (writer_loop late (event 1 ∷ event 2 ∷ []) (start [])).file.lines ≡ event 2 ∷ []
unfolding writer_loop receive drain write_event push_degraded
late_run = refl

abbrev healthy : ℕ → Bool
healthy n = true

abbrev behind : Writer
behind = record { file = record { lines = []; attempts = 1 }; degraded = event 1 ∷ []; written = 0 }

abbrev silent_start : Pipeline bounded late
silent_start = record { sender = record { tx = []; dropped = 0 }; writer = start [] }

-- Two events are recorded, and the first is taken before the second comes.
abbrev piped : Pipeline bounded late
piped = record {
  sender = record { tx = event 2 ∷ []; dropped = 0 };
  writer = receive late (event 1) (start []);
}

pipes : Run bounded late silent_start (event 1 ∷ event 2 ∷ []) [] [] piped
unfolding record_event send drain
pipes =
    further
      (further (further none_yet (produce (event 1)))
        (consume {e = event 1} {rest = []} {tx = []} refl refl))
      (produce (event 2))

Run-IsPiped_example : IsPiped bounded late [] (event 1 ∷ event 2 ∷ []) [] [] piped
Run-IsPiped_example =
    Run-IsPiped bounded late send_open [] [] (event 1 ∷ event 2 ∷ []) [] [] piped refl pipes
      (omega arith)
