-- ===== src/App/Persist/Batches.antt =====
-- internal/app/app.go, `persistWorker`: what becomes of the tasks of a batch.
use r0rpc.Prelude.{◌<◌, ◌≡◌, ap, ◌∙◌, subst, Bool, true, false, List, ◌++◌, ltb, length, arith}
use r0rpc.App.Invoke.{PersistTask, PersistTaskKind}
use r0rpc.App.Persist.{
  completed, rpc_added, device_added, Failures, run_persist_batch, run_each, handle_batch,
}
use r0rpc.App.Persist.Writes.{
  tasks_for, applied, applied-append, run_each-all, Begins, Writes, shares, statement-Writes,
  run_creates-Writes, nothing-Writes, in_write-completed, in_write-rpc_added, in_write-device_added,
}

-- A batch without an error has written every task, and one with an error the first ones of each kind.
pub batch-Writes :
    (k : PersistTaskKind) (f : Failures) (ts : List PersistTask)
    → Writes (tasks_for k ts) k (run_persist_batch f ts)
unfolding run_persist_batch
batch-Writes k f ts =
    subst (λ l. Writes l k (run_persist_batch f ts)) (shares k ts)
      (run_creates-Writes k _ f ts _ (
        statement-Writes k PersistTaskKind.complete_request completed _ f.complete_fails _ _
          (in_write-completed k)
          (statement-Writes k PersistTaskKind.rpc_metric rpc_added _ f.rpc_fails _ _
            (in_write-rpc_added k)
            (statement-Writes k PersistTaskKind.device_metric device_added _ f.device_fails _ _
              (in_write-device_added k) (nothing-Writes k)))))

abbrev pub never : PersistTask → Bool
never t = false

-- The tasks of a kind that a worker whose fallback does not fail writes, in their order.
pub record Handles (k : PersistTaskKind) (f : Failures) (ts : List PersistTask) : Type 0 where
  pub once :
      (run_persist_batch f ts).1 ≡ true → applied k (handle_batch f never ts) ≡ tasks_for k ts
  pub again :
      (run_persist_batch f ts).1 ≡ false
      → 1 < length ts
      → applied k (handle_batch f never ts) ≡ applied k (run_persist_batch f ts).0 ++ tasks_for k ts
  pub begun : Begins (applied k (run_persist_batch f ts).0) (tasks_for k ts)

pub handle_batch-Handles :
    (k : PersistTaskKind) (f : Failures) (ts : List PersistTask) → Handles k f ts
unfolding handle_batch
handle_batch-Handles k f ts =
    let b = run_persist_batch f ts in
    let w = batch-Writes k f ts in
    record {
      once = λ is. rw is (w.all is);
      again = λ is several.
          rw (is, several_tasks several)
            (applied-append k b.0 (run_each never ts)
              ∙ ap (λ l. applied k b.0 ++ l) (run_each-all k ts));
      begun = w.begun;
    }
  where
    several_tasks : 1 < length ts → ltb 1 (length ts) ≡ true
    several_tasks h = ground arith
