-- ===== src/Tools/Soak.antt =====
-- examples/soak.rs: what the workers send and count, and what `main` judges. What the daemon
-- answers and what the machine measures are arguments.
pub mod Floor
use remo_broker.Base.{
  ℕ, ◌+◌, ◌*◌, ◌/◌, ◌%◌, Bool, true, false, Option, none, some, List, [], ◌∷◌, ◌++◌, length, head?,
  drop, Text, codes, starts_with, if◌then◌else◌, ltb, max, ◌==◌,
}
use remo_broker.Bootstrap.Http.{lines, words_from}
use remo_broker.Tools.Reading.{parse_u64}

-- What a worker sends; a `get` is of one of ten secrets.
pub data Op : Type 0 where
  get : ℕ → Op
  ping info : Op

unfoldable pub op_of : ℕ → Op
op_of tick =
    if ltb (tick % 5) 3 then get ((tick / 5) % 10) else if tick % 5 == 3 then ping else info

-- A worker: the results of its requests, in order, and whether it panicked.
pub record Worker : Type 0 where
  pub results : List Bool
  pub panicked : Bool

pub record Counts : Type 0 where
  pub total_ops : ℕ
  pub errors : ℕ
  pub panics : ℕ

-- The `match result` of a worker, once for each request.
unfoldable pub work : List Bool → Counts → Counts
work [] k = k
work (true ∷ rest) k = work rest (record k { total_ops = k.total_ops + 1 })
work (false ∷ rest) k = work rest (record k { errors = k.errors + 1 })

unfoldable pub joined : Worker → Counts → Counts
unfolding work
joined w k =
    let k' = work w.results k in if w.panicked then record k' { panics = k'.panics + 1 } else k'

unfoldable pub join_all : List Worker → Counts → Counts
unfolding joined
join_all [] k = k
join_all (w ∷ workers) k = join_all workers (joined w k)

-- The value of the line `VmRSS:` in /proc/{pid}/status.
unfoldable pub rss_in : List Text → Option ℕ
rss_in [] = none
rss_in (line ∷ rest) =
    if starts_with line (codes "VmRSS:")
    then (elim (head? (words_from (length line) [] (drop 6 line))) [
      | none ↦ none
      | some v ↦ parse_u64 v
    ])
    else rss_in rest

unfoldable pub read_rss_kib : Option Text → Option ℕ
unfolding rss_in
read_rss_kib none = none
read_rss_kib (some s) = rss_in (lines s)

pub data Failure : Type 0 where
  workers_panicked : ℕ → Failure
  error_rate : ℕ → Failure
  rss_over_cap : ℕ → ℕ → Failure
  audit_below_floor : ℕ → ℕ → ℕ → Failure

abbrev pub when {ℓ} : {A : Type ℓ} → Bool → A → List A
when true a = a ∷ []
when false a = []

-- The assertions at the end of `main`.
unfoldable pub failures : Counts → ℕ → ℕ → ℕ → List Failure
failures k final_rss_mib rss_cap_mib audit_lines =
    when (ltb 0 k.panics) (workers_panicked k.panics)
    ++ (when (ltb k.total_ops (k.errors * 100))
          (error_rate ((k.errors * 100) / (max k.total_ops 1)))
        ++ (when (ltb rss_cap_mib final_rss_mib) (rss_over_cap final_rss_mib rss_cap_mib)
            ++ (if ltb k.total_ops 5
                then []
                else when (ltb audit_lines ((k.total_ops * 2) / 5))
                    (audit_below_floor audit_lines ((k.total_ops * 2) / 5) k.total_ops))))
