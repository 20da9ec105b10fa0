-- ===== src/Tools/Soak/Floor.antt =====
-- The audit check of examples/soak.rs does not fail a daemon that does its work.
use remo_broker.Base.{
  ℕ, ◌+◌, ◌*◌, ◌%◌, ◌≡◌, ◌≤◌, refl, Bool, true, false, List, [], ◌∷◌, length, All, if◌then◌else◌,
  ◌==◌, arith,
}
use remo_broker.Tools.Soak.{
  Op, get, ping, info, op_of, Worker, Counts, work, joined, join_all, failures,
}

abbrev pub gets_one : Op → ℕ
gets_one (get name) = 1
gets_one ping = 0
gets_one info = 0

-- The requests for a secret among those of a worker that begins at this tick.
unfoldable pub gets_from : ℕ → List Bool → ℕ
unfolding op_of
gets_from tick [] = 0
gets_from tick (r ∷ rest) = gets_one (op_of tick) + gets_from (tick + 1) rest

-- How far a run of requests that begins at this remainder may lag behind three in five.
abbrev slack : ℕ → ℕ
slack r = if r == 0 then 6 else if r == 1 then 4 else if r == 2 then 2 else if r == 3 then 0 else 3

gets_from-length :
    (tick : ℕ) (results : List Bool)
    → 5 * gets_from tick results + slack ((tick + length results) % 5)
      ≡ 3 * length results + slack (tick % 5)
unfolding gets_from op_of
gets_from-length tick [] = ground arith
gets_from-length tick (r ∷ rest) = ground (arith, gets_from-length (tick + 1) rest)

slack-le : (r : ℕ) → slack r ≤ 6
slack-le r = ground arith

-- A run of six or more has two gets in five at least.
gets_from-le :
    (tick : ℕ) (results : List Bool)
    → 6 ≤ length results
    → 2 * length results ≤ 5 * gets_from tick results
gets_from-le tick results h =
    omega (arith, gets_from-length tick results, slack-le ((tick + length results) % 5))

-- The gets of all workers; the first has this number, and begins at the tick of that number.
unfoldable pub gets_all : ℕ → List Worker → ℕ
unfolding gets_from
gets_all id [] = 0
gets_all id (w ∷ workers) = gets_from id w.results + gets_all (id + 1) workers

-- It made six requests or more, all of which were answered, and did not panic.
pub record IsWell (w : Worker) : Type 0 where
  pub answered : All (λ r. r ≡ true) w.results
  pub enough : 6 ≤ length w.results
  pub calm : w.panicked ≡ false

work-answered :
    (results : List Bool) (k : Counts)
    → All (λ r. r ≡ true) results
    → work results k ≡ record k { total_ops = k.total_ops + length results }
unfolding work
work-answered [] k h = ground arith
work-answered (true ∷ rest) k h =
    ground (arith, work-answered rest (record k { total_ops = k.total_ops + 1 }) h.1)
work-answered (false ∷ rest) k h = absurd (ground arith)

record Keeps (id : ℕ) (workers : List Worker) (before after : Counts) : Type 0 where
  errors : after.errors ≡ before.errors
  panics : after.panics ≡ before.panics
  floor : 2 * after.total_ops ≤ 2 * before.total_ops + 5 * gets_all id workers

join_all-Keeps :
    (id : ℕ) (workers : List Worker) (k : Counts)
    → All IsWell workers
    → Keeps id workers k (join_all workers k)
unfolding join_all joined gets_all
join_all-Keeps id [] k h = record { errors = refl; panics = refl; floor = omega arith }
join_all-Keeps id (w ∷ workers) k (v, h) =
    let e = work-answered w.results k v.answered in
    let ih = join_all-Keeps (id + 1) workers (joined w k) h in
    let g = gets_from-le id w.results v.enough in
    record {
      errors = ground (arith, e, ih);
      panics = ground (arith, e, ih);
      floor = ground (arith, e, ih, g);
    }

abbrev pub nothing : Counts
nothing = record { total_ops = 0; errors = 0; panics = 0 }

-- The soak test passes a daemon that works: where no worker panicked, each made six requests or
-- more and all were answered, the memory is within its cap, and the audit log has a line for each
-- get, `main` finds no failure.
pub failures_sound :
    (workers : List Worker) (final_rss_mib rss_cap_mib audit_lines : ℕ)
    → All IsWell workers
    → final_rss_mib ≤ rss_cap_mib
    → gets_all 0 workers ≤ audit_lines
    → failures (join_all workers nothing) final_rss_mib rss_cap_mib audit_lines ≡ []
unfolding failures
failures_sound workers rss cap lines well fits logged =
    let k = join_all-Keeps 0 workers nothing well in ground (arith, k)
