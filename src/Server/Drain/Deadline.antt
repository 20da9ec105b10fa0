-- ===== src/Server/Drain/Deadline.antt =====
-- How long the two drains of the shutdown of src/server.rs take, and whom they abort.
use remo_broker.Base.{ℕ, ◌+◌, ◌-◌, ◌≤◌, ◌≡◌, ◌⊎◌, max, true, false, List, [], ◌∷◌, arith}
use remo_broker.Server.Drain.{
  Ended, finished, aborted, Task, ends_by, await_or_abort, drain_loops, drain_join_set, drain_all,
  shutdown_drain,
}

-- The time that a list of tasks takes to end after their aborts: one after the other, and all at a
-- time.
pub unwinding : List Task → ℕ
unwinding [] = 0
unwinding (t ∷ tasks) = t.after_abort + unwinding tasks

pub longest : List Task → ℕ
longest [] = 0
longest (t ∷ tasks) = max t.after_abort (longest tasks)

-- Whoever is let finish has ended by the later time, and whoever is aborted had not ended by the
-- deadline.
abbrev pub IsJudged : ℕ → ℕ → List Task → List Ended → Type 0
IsJudged deadline late [] [] = Unit
IsJudged deadline late (t ∷ tasks) (e ∷ ended) =
    (((e ≡ finished) × (ends_by late t.ends_at ≡ true))
      ⊎ ((e ≡ aborted) × (ends_by deadline t.ends_at ≡ false)))
    × IsJudged deadline late tasks ended
IsJudged deadline late tasks ended = ⊥

await_or_abort_lem :
    (deadline now late soonest : ℕ) (task : Task)
    → soonest ≤ max now deadline
    → max now deadline ≤ late
    → let (ended, then_at) = await_or_abort deadline now task in
      (((ended ≡ finished) × (ends_by late task.ends_at ≡ true))
        ⊎ ((ended ≡ aborted) × (ends_by soonest task.ends_at ≡ false)))
      × (then_at ≤ max now deadline + task.after_abort)
unfolding await_or_abort
await_or_abort_lem deadline now late soonest task early h = ground arith

drain_loops_lem :
    (deadline now late : ℕ) (tasks : List Task)
    → now + unwinding tasks ≤ late
    → deadline + unwinding tasks ≤ late
    → IsJudged deadline late tasks (drain_loops deadline now tasks).0
      × ((drain_loops deadline now tasks).1 ≤ late)
unfolding drain_loops unwinding
drain_loops_lem deadline now late [] h k = (tt, omega (arith, h))
drain_loops_lem deadline now late (task ∷ tasks) h k =
    let (one, then_at) =
      await_or_abort_lem deadline now late deadline task (omega arith) (omega (arith, h, k)) in
    let (rest, last) =
      drain_loops_lem deadline (await_or_abort deadline now task).1 late tasks
        (omega (arith, h, k, then_at)) (omega (arith, k)) in
    ((one, rest), last)

drain_join_set_lem :
    (limit now soonest late last : ℕ) (tasks : List Task)
    → soonest ≤ now + limit
    → now + limit ≤ late
    → now + limit + longest tasks ≤ last
    → IsJudged soonest late tasks (drain_join_set limit now tasks).0
      × ((drain_join_set limit now tasks).1 ≤ last)
unfolding drain_join_set longest
drain_join_set_lem limit now soonest late last [] a h k = (tt, omega (arith, k))
drain_join_set_lem limit now soonest late last (task ∷ tasks) a h k =
    let (one, then_at) =
      await_or_abort_lem (now + limit) now late soonest task (omega arith) (omega (arith, h)) in
    let (rest, ended_at) =
      drain_join_set_lem limit now soonest late last tasks a h (omega (arith, k)) in
    ((one, rest), omega (arith, then_at, ended_at, k))

-- The two drains of the shutdown, of the project loops and of the admin connections, take five
-- seconds at most, however many tasks there are, and beyond these only the time that tasks run on
-- after their abort: loops one after the other, connections side by side. Every task is let finish
-- or aborted. One that ends by itself within the five seconds is never aborted, and one that is let
-- finish ends by itself within the five seconds and the time that aborted loops may run on.
pub drain_all_lem :
    (now : ℕ) (loops connections : List Task)
    → let t = drain_all now loops connections in
      let deadline = now + shutdown_drain in
      let late = deadline + unwinding loops in
      (t.ended_at ≤ late + longest connections)
      × IsJudged deadline late loops t.loops
      × IsJudged deadline late connections t.connections
unfolding drain_all
drain_all_lem now loops connections =
    let deadline = now + shutdown_drain in
    let late = deadline + unwinding loops in
    let (judged, loops_at) = drain_loops_lem deadline now late loops (omega arith) (omega arith) in
    let (others, ended_at) =
      drain_join_set_lem (deadline - (drain_loops deadline now loops).1)
        (drain_loops deadline now loops).1 deadline late (late + longest connections) connections
        (omega arith) (omega (arith, loops_at)) (omega (arith, loops_at)) in
    (ended_at, judged, others)
