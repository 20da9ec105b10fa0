-- ===== src/Server/Accept.antt =====
-- The accept loops of src/server.rs, `Server::run` and `run_project_socket`, with the task that tells
-- them to stop. `Notify` is tokio's: `notify_waiters` wakes each `notified()` future that there is,
-- and stores nothing for a later one. A round creates the future, polls it first (`biased`), then
-- polls `accept`; a round that accepts drops the future.
pub mod Signals
mod Examples
use remo_broker.Base.{ℕ, ◌+◌, Bool, true, false, ◌≡◌}

-- Where the loop stands. `woken` says that the round's future was notified.
pub data Phase : Type 0 where
  created : (woken : Bool) → Phase  -- the future is there, and is polled next
  polled : (woken : Bool) → Phase  -- it was not ready, and `accept` is polled next
  spawning : Phase  -- a connection was accepted
  backing_off : Phase  -- `accept` failed: the loop sleeps for 50 ms
  stopped : Phase

-- The loop, and how many connections it has spawned. `armed` says that the stopping task has not
-- yet called `notify_waiters`; it calls it once.
pub record Loop : Type 0 where
  pub phase : Phase
  pub spawned : ℕ
  pub armed : Bool

-- `notify_waiters`, as the loop sees it.
abbrev pub notified : Phase → Phase
notified (created woken) = created true
notified (polled woken) = polled true
notified spawning = spawning
notified backing_off = backing_off
notified stopped = stopped

-- What the loop does by itself, from each phase.
pub data Turn : Phase → ℕ → Phase → ℕ → Type 0 where
  stop : {n : ℕ} → Turn (created true) n stopped n
  go_on : {n : ℕ} → Turn (created false) n (polled false) n
  -- neither is ready: the task sleeps until one of them is, and polls again
  sleep : {n : ℕ} {woken : Bool} → Turn (polled woken) n (created woken) n
  accept : {n : ℕ} {woken : Bool} → Turn (polled woken) n spawning n
  accept_failed : {n : ℕ} {woken : Bool} → Turn (polled woken) n backing_off n
  spawn : {n : ℕ} → Turn spawning n (created false) (n + 1)
  retry : {n : ℕ} → Turn backing_off n (created false) n

pub data Step (l : Loop) : Loop → Type 0 where
  turn :
      {phase : Phase} {spawned : ℕ}
      → Turn l.phase l.spawned phase spawned
      → Step l (record l { phase = phase; spawned = spawned })
  signal : l.armed ≡ true → Step l (record l { phase = notified l.phase; armed = false })

pub data Reach (l : Loop) : Loop → Type 0 where
  here : Reach l l
  later : {m n : Loop} → Reach l m → Step m n → Reach l n

abbrev pub begun : Loop
begun = record { phase = created false; spawned = 0; armed = true }
