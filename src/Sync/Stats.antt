-- ===== src/Sync/Stats.antt =====
-- src/services/sync/strategies/Syncer.js: the statistics of nested runs.
use schulcloud.Base.{ℕ, ◌+◌, ◌≡◌, refl, Option, some, Bool, true, false, if◌then◌else◌, arith}

-- The statistics of a run, of which only `success` is read, or an array of statistics; a run may
-- have none.
mutual
  pub data Stats : Type 0 where
    missing : Stats
    run : Option Bool → Stats
    runs : StatsList → Stats

  pub data StatsList : Type 0 where
    nil : StatsList
    cons : Stats → StatsList → StatsList

pub record Totals : Type 0 where
  pub successful : ℕ
  pub failed : ℕ

abbrev pub no_totals : Totals
no_totals = record { successful = 0; failed = 0 }

abbrev pub add : Totals → Totals → Totals
add a b = record { successful = a.successful + b.successful; failed = a.failed + b.failed }

-- `success === true`
abbrev pub is_success : Option Bool → Bool
is_success (some true) = true
is_success _ = false

unfoldable mutual
  pub aggregate_stats : Stats → Totals
  aggregate_stats missing = no_totals
  aggregate_stats (run success) = record {
    successful = if is_success success then 1 else 0;
    failed = if is_success success then 0 else 1;
  }
  aggregate_stats (runs l) = aggregate_onto no_totals l

  -- `reduce` from the left.
  pub aggregate_onto : Totals → StatsList → Totals
  aggregate_onto agg nil = agg
  aggregate_onto agg (cons s l) = aggregate_onto (add agg (aggregate_stats s)) l

-- How many runs there are, at any depth, and how many of them succeeded.
mutual
  pub count_runs : Stats → ℕ
  count_runs missing = 0
  count_runs (run success) = 1
  count_runs (runs l) = count_runs_in l

  pub count_runs_in : StatsList → ℕ
  count_runs_in nil = 0
  count_runs_in (cons s l) = count_runs s + count_runs_in l

mutual
  pub count_successes : Stats → ℕ
  count_successes missing = 0
  count_successes (run success) = if is_success success then 1 else 0
  count_successes (runs l) = count_successes_in l

  pub count_successes_in : StatsList → ℕ
  count_successes_in nil = 0
  count_successes_in (cons s l) = count_successes s + count_successes_in l

mutual
  unfolding aggregate_stats count_runs count_successes

  totals_of :
      (s : Stats)
      → ((aggregate_stats s).successful ≡ count_successes s)
        × ((aggregate_stats s).successful + (aggregate_stats s).failed ≡ count_runs s)
  totals_of missing = (refl, omega arith)
  totals_of (run success) = ground arith
  totals_of (runs l) = let (a, b) = totals_in no_totals l in (omega (arith, a), omega (arith, b))

  totals_in :
      (agg : Totals) (l : StatsList)
      → ((aggregate_onto agg l).successful ≡ agg.successful + count_successes_in l)
        × ((aggregate_onto agg l).successful + (aggregate_onto agg l).failed
            ≡ agg.successful + agg.failed + count_runs_in l)
  totals_in agg nil = (omega arith, omega arith)
  totals_in agg (cons s l) =
      let (a, b) = totals_of s in
      let (c, d) = totals_in (add agg (aggregate_stats s)) l in
      (omega (arith, a, c), omega (arith, a, b, d))

-- The totals count each run at any depth once, as successful exactly if its success is true.
pub aggregate_stats_totals :
    (s : Stats)
    → ((aggregate_stats s).successful ≡ count_successes s)
      × ((aggregate_stats s).successful + (aggregate_stats s).failed ≡ count_runs s)
aggregate_stats_totals s = totals_of s
