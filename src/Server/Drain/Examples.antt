-- ===== src/Server/Drain/Examples.antt =====
-- The shutdown's waits at concrete inputs.
use remo_broker.Base.{◌+◌, ◌≤◌, ◌≡◌, refl, none, some, [], ◌∷◌, from_secs}
use remo_broker.Server.Drain.{
  finished, aborted, Task, drain_all, drain_loops, drain_join_set, await_or_abort, shutdown_drain,
}
use remo_broker.Server.Drain.Deadline.{IsJudged, unwinding, longest, drain_all_lem}

-- A loop that ends after three seconds, one that hangs and takes a second to end once it is
-- aborted, and a connection that ends too late.
abbrev prompt : Task
prompt = record { ends_at = some (from_secs 3); after_abort = 0 }

abbrev stuck : Task
stuck = record { ends_at = none; after_abort = from_secs 1 }

abbrev busy : Task
busy = record { ends_at = some (from_secs 7); after_abort = from_secs 2 }

drained : drain_all 0 (prompt ∷ stuck ∷ []) (busy ∷ []) ≡ record {
  loops = finished ∷ aborted ∷ [];
  connections = aborted ∷ [];
  loops_at = from_secs 6;
  ended_at = from_secs 8;
}
unfolding drain_all drain_loops drain_join_set await_or_abort
drained = refl

drain_all_lem_example :
    let t = drain_all 0 (prompt ∷ stuck ∷ []) (busy ∷ []) in
    let late = 0 + shutdown_drain + unwinding (prompt ∷ stuck ∷ []) in
    (t.ended_at ≤ late + longest (busy ∷ []))
    × IsJudged (0 + shutdown_drain) late (prompt ∷ stuck ∷ []) t.loops
    × IsJudged (0 + shutdown_drain) late (busy ∷ []) t.connections
drain_all_lem_example = drain_all_lem 0 (prompt ∷ stuck ∷ []) (busy ∷ [])
