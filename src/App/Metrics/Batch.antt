-- ===== src/App/Metrics/Batch.antt =====
-- internal/app/persist_batch.go: a batch of metrics writes what its tasks would write one by one.
use r0rpc.Prelude.{
  ℕ, zero, suc, ◌^◌, ◌≤◌, ◌<◌, ◌≡◌, refl, sym, ap, ◌∙◌, List, [], ◌∷◌, ◌++◌, string_eq, Comparable,
  length, take, drop, arith,
}
use r0rpc.Prelude.Map
use r0rpc.Prelude.Map.{Map, lookup, insert, find, without}
use r0rpc.App.Totals.{Delta, joined, joined-none, joined_assoc, picked, added_up, added_up-append}
use r0rpc.App.Metrics.Deltas.{rows_of, weight, added_up-accumulate}
use r0rpc.App.Metrics.{
  row_of, MetricTask, accumulate, MetricTable, increment, increment_each, increment_rows,
  increment_batch,
}

module _ {ℓ} {A : Type ℓ} where
  take-drop : (n : ℕ) (xs : List A) → take n xs ++ drop n xs ≡ xs
  take-drop zero xs = refl
  take-drop (suc n) [] = refl
  take-drop (suc n) (x ∷ xs) = ap (λ ys. x ∷ ys) (take-drop n xs)

  length-drop_le : (n : ℕ) (x : A) (xs : List A) → length (drop (suc n) (x ∷ xs)) ≤ length xs
  length-drop_le zero x xs = omega arith
  length-drop_le (suc n) x [] = omega arith
  length-drop_le (suc n) x (y ∷ ys) = omega (arith, length-drop_le n y ys)

module _ {ℓ} {K : Type ℓ} {T : Type 0} (db : MetricTable K T) (k : K) where
  row-increment_each :
      (t : T) (tasks : List (MetricTask K))
      → db.row (increment_each db t tasks) k
        ≡ joined (db.row t k) (added_up (db.collates k) (rows_of tasks))
  unfolding increment_each increment
  row-increment_each t [] = sym (joined-none (db.row t k))
  row-increment_each t (task ∷ tasks) =
      let p = db.collates k in
      let d = row_of task.status task.latency_ms in
      row-increment_each (increment db t task) tasks
      ∙ ap (λ o. joined o (added_up p (rows_of tasks)))
          (db.law t ((task.key, d) ∷ []) k
            ∙ ap (joined (db.row t k)) (joined-none (picked p task.key d)))
      ∙ joined_assoc (db.row t k) (picked p task.key d) (added_up p (rows_of tasks))

  row-increment_rows :
      (fuel : ℕ) (t : T) (rows : List (K × Delta))
      → length rows ≤ fuel
      → db.row (increment_rows db fuel t rows) k
        ≡ joined (db.row t k) (added_up (db.collates k) rows)
  unfolding increment_rows
  row-increment_rows fuel t [] h = sym (joined-none (db.row t k))
  row-increment_rows zero t (r ∷ rows) h = absurd (omega (arith, h))
  row-increment_rows (suc fuel) t (r ∷ rows) h =
      let p = db.collates k in
      let first = take 256 (r ∷ rows) in
      let rest = drop 256 (r ∷ rows) in
      row-increment_rows fuel (db.upsert t first) rest (omega (arith, h, length-drop_le 255 r rows))
      ∙ ap (λ o. joined o (added_up p rest)) (db.law t first k)
      ∙ joined_assoc (db.row t k) (added_up p first) (added_up p rest)
      ∙ ap (joined (db.row t k))
          (sym (added_up-append p first rest) ∙ ap (added_up p) (take-drop 256 (r ∷ rows)))

-- Writing the deltas of a batch of metrics, at most 256 rows in a statement, leaves every row of the
-- table as the fallback does that writes the tasks one by one, when the tasks and their latencies are
-- not negative and add up to less than 2^63.
pub batch_agrees :
    {K : Type 0} {T : Type 0} ⦃e : Comparable K⦄ (db : MetricTable K T) (t : T)
    (tasks : List (MetricTask K)) (k : K)
    → weight tasks < 2 ^ 63
    → db.row (increment_batch db t (accumulate Map.empty tasks).entries) k
      ≡ db.row (increment_each db t tasks) k
unfolding increment_batch Map.empty
batch_agrees db t tasks k h =
    let rows = (accumulate Map.empty tasks).entries in
    row-increment_rows db k (length rows) t rows (omega arith)
    ∙ ap (joined (db.row t k))
        (added_up-accumulate (db.collates k) 0 Map.empty tasks (omega (arith, h)) tt tt)
    ∙ sym (row-increment_each db k t tasks)
