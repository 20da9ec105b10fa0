-- ===== src/Server/Accept/Examples.antt =====
-- The accept loop's properties at concrete inputs.
use remo_broker.Base.{◌≡◌, ◌≢◌, refl, true, false, inr}
use remo_broker.Server.Accept.{
  Loop, created, backing_off, stopped, go_on, accept_failed, retry, stop, turn, signal, Reach, here,
  later, begun,
}
use remo_broker.Server.Accept.Signals.{signal_lost, stopped_by_signal}

-- `accept` has failed once.
abbrev backed_off : Loop
backed_off = record { phase = backing_off; spawned = 0; armed = true }

backs_off : Reach begun backed_off
backs_off = later (later here (turn go_on)) (turn accept_failed)

-- The signal came during the back-off, and the loop has gone on.
abbrev going_on : Loop
going_on = record { phase = created false; spawned = 0; armed = false }

signal_lost_example : going_on.phase ≢ stopped
signal_lost_example = signal_lost backed_off {m = going_on} (inr refl) (later here (turn retry))

-- The signal came while the future was waiting to be polled.
abbrev told : Loop
told = record { phase = stopped; spawned = 0; armed = false }

hears : Reach begun told
hears = later (later here (signal refl)) (turn stop)

stopped_by_signal_example : told.armed ≡ false
stopped_by_signal_example = stopped_by_signal hears refl
