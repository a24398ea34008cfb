-- ===== src/App/Metrics.antt =====
-- internal/app/persist_batch.go and internal/store/store.go: the daily metrics of calls. A worker adds up
-- the deltas of a batch by key and writes one row for each key; the fallback writes one row for each
-- task. An `int64` is the number with its 64 bits. Metrics by device and by action differ only in
-- their key, which is a parameter here. The database is a parameter too, see `MetricTable`; its
-- statements succeed.
pub mod Deltas
pub mod Batch
use r0rpc.Prelude.{
  ℕ, zero, suc, ◌+◌, ◌%◌, ◌^◌, ◌≡◌, String, Bool, Option, none, some, get_or, List, [], ◌∷◌, ◌==◌,
  string_eq, Comparable, ltb, length, take, drop, map, if◌then◌else◌,
}
use r0rpc.Prelude.Map
use r0rpc.Prelude.Map.{Map, lookup, insert}
use r0rpc.App.Totals.{Delta, joined, added_up}

abbrev pub zero_delta : Delta
zero_delta = record {
  total_requests = 0;
  success_requests = 0;
  failed_requests = 0;
  timeout_requests = 0;
  total_latency_ms = 0;
  max_latency_ms = 0;
}

-- `a < b` on the signed numbers with these bits.
abbrev pub lt_signed : ℕ → ℕ → Bool
lt_signed a b = ltb ((a + 2 ^ 63) % 2 ^ 64) ((b + 2 ^ 63) % 2 ^ 64)

unfoldable pub add_totals : Delta → ℕ → ℕ → ℕ → ℕ → ℕ → ℕ → Delta
add_totals d total success failed timeout latency longest = record {
  total_requests = (d.total_requests + total) % 2 ^ 64;
  success_requests = (d.success_requests + success) % 2 ^ 64;
  failed_requests = (d.failed_requests + failed) % 2 ^ 64;
  timeout_requests = (d.timeout_requests + timeout) % 2 ^ 64;
  total_latency_ms = (d.total_latency_ms + latency) % 2 ^ 64;
  max_latency_ms = if lt_signed d.max_latency_ms longest then longest else d.max_latency_ms;
}

abbrev pub success_of : String → ℕ
success_of status = if status == "success" then 1 else 0

abbrev pub timeout_of : String → ℕ
timeout_of status = if status == "timeout" then 1 else 0

-- The `default` of the switch.
abbrev pub failed_of : String → ℕ
failed_of status = if status == "success" then 0 else if status == "timeout" then 0 else 1

unfoldable pub accumulate_metric : Delta → String → ℕ → Delta
unfolding add_totals
accumulate_metric d status latency =
    add_totals d 1 (success_of status) (failed_of status) (timeout_of status) latency latency

-- The values of the row that `IncrementDailyMetric` and `IncrementRPCDailyMetric` insert.
abbrev pub row_of : String → ℕ → Delta
row_of status latency = record {
  total_requests = 1;
  success_requests = success_of status;
  failed_requests = failed_of status;
  timeout_requests = timeout_of status;
  total_latency_ms = latency;
  max_latency_ms = latency;
}

pub record MetricTask {ℓ} (K : Type ℓ) : Type ℓ where
  pub key : K
  pub status : String
  pub latency_ms : ℕ

module _ {ℓ} {K : Type ℓ} ⦃e : Comparable K⦄ where
  -- The loop of `runPersistBatch` over the tasks of one kind.
  unfoldable pub accumulate : Map K Delta → List (MetricTask K) → Map K Delta
  unfolding accumulate_metric
  accumulate m [] = m
  accumulate m (t ∷ ts) =
      let delta = get_or (lookup t.key m) zero_delta in
      accumulate (insert t.key (accumulate_metric delta t.status t.latency_ms) m) ts

-- The table of the metrics in the database: `upsert` is one `INSERT ... ON DUPLICATE KEY UPDATE` of some
-- rows. The law is what the statement documents: to the row under a key come all rows inserted under
-- keys that the table's collation takes for the same, sums added and the maximum taken.
pub record MetricTable {ℓ} (K : Type ℓ) (T : Type 0) : Type ℓ where
  pub row : T → K → Option Delta
  pub upsert : T → List (K × Delta) → T
  pub collates : K → K → Bool
  pub law :
      (t : T) (rows : List (K × Delta)) (k : K)
      → row (upsert t rows) k ≡ joined (row t k) (added_up (collates k) rows)

module _ {ℓ} {K : Type ℓ} {T : Type 0} (db : MetricTable K T) where
  -- `IncrementDailyMetric` and `IncrementRPCDailyMetric`
  unfoldable pub increment : T → MetricTask K → T
  increment t task = db.upsert t ((task.key, row_of task.status task.latency_ms) ∷ [])

  -- The fallback of `persistWorker`, task by task.
  unfoldable pub increment_each : T → List (MetricTask K) → T
  unfolding increment
  increment_each t [] = t
  increment_each t (task ∷ tasks) = increment_each (increment t task) tasks

  -- The loop over the statements, each of 256 rows at most.
  unfoldable pub increment_rows : ℕ → T → List (K × Delta) → T
  increment_rows fuel t [] = t
  increment_rows zero t (r ∷ rows) = t
  increment_rows (suc fuel) t (r ∷ rows) =
      increment_rows fuel (db.upsert t (take 256 (r ∷ rows))) (drop 256 (r ∷ rows))

  -- `IncrementDeviceDailyMetricsBatch` and `IncrementRPCDailyMetricsBatch`
  unfoldable pub increment_batch : T → List (K × Delta) → T
  unfolding increment_rows
  increment_batch t rows = increment_rows (length rows) t rows
