-- ===== src/Server/Drain.antt =====
-- The waits of src/server.rs at the end: `drain_join_set`, `drain_project_loops` and the deadline that
-- `Server::run` gives them both. Time is in nanoseconds. An aborted task is waited for until it has
-- ended, however long that takes.
pub mod Deadline
mod Examples
use remo_broker.Base.{
  ℕ, ◌+◌, ◌-◌, max, Bool, false, Option, none, some, List, [], ◌∷◌, leb, if◌then◌else◌, from_secs,
}

-- `SHUTDOWN_DRAIN`
abbrev pub shutdown_drain : ℕ
shutdown_drain = from_secs 5

pub data Ended : Type 0 where
  finished aborted : Ended

pub record Task : Type 0 where
  -- when it ends if nobody aborts it, or none where it never does
  pub ends_at : Option ℕ
  -- how long it runs on after an abort
  pub after_abort : ℕ

-- The task has ended by then.
abbrev pub ends_by : ℕ → Option ℕ → Bool
ends_by limit none = false
ends_by limit (some t) = leb t limit

-- When a task that ends by itself has been joined.
abbrev pub joined_at : ℕ → Option ℕ → ℕ
joined_at now none = now
joined_at now (some t) = max now t

-- `timeout_at(deadline, &mut handle)`, then `abort` where the time ran out, and a wait for the end
-- that has no limit. The handle is polled before the clock.
unfoldable pub await_or_abort : ℕ → ℕ → Task → Ended × ℕ
await_or_abort deadline now task =
    if ends_by (max now deadline) task.ends_at
    then (finished, joined_at now task.ends_at)
    else (aborted, max now deadline + task.after_abort)

-- `drain_project_loops` once every loop was told to stop: one task after the other.
unfoldable pub drain_loops : ℕ → ℕ → List Task → List Ended × ℕ
drain_loops deadline now [] = ([], now)
drain_loops deadline now (task ∷ tasks) =
    let (ended, then_at) = await_or_abort deadline now task in
    let (rest, last) = drain_loops deadline then_at tasks in (ended ∷ rest, last)

-- `drain_join_set`: all tasks at a time, until the last has ended or the limit is over; then all
-- that are left are aborted and waited for.
unfoldable pub drain_join_set : ℕ → ℕ → List Task → List Ended × ℕ
drain_join_set limit now [] = ([], now)
drain_join_set limit now (task ∷ tasks) =
    let (rest, last) = drain_join_set limit now tasks in
    let (ended, then_at) = await_or_abort (now + limit) now task in (ended ∷ rest, max then_at last)

pub record Timeline : Type 0 where
  pub loops : List Ended
  pub connections : List Ended
  pub loops_at : ℕ
  pub ended_at : ℕ

-- The loops first, then the admin connections with what is left of the time.
unfoldable pub drain_all : ℕ → List Task → List Task → Timeline
unfolding drain_loops drain_join_set
drain_all now loops connections =
    let deadline = now + shutdown_drain in
    let (loops_ended, loops_at) = drain_loops deadline now loops in
    let (connections_ended, ended_at) = drain_join_set (deadline - loops_at) loops_at connections in
    record {
      loops = loops_ended;
      connections = connections_ended;
      loops_at = loops_at;
      ended_at = ended_at;
    }
