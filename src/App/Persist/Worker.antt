-- ===== src/App/Persist/Worker.antt =====
-- internal/app/app.go, `persistWorker`: the queue is emptied in batches.
use r0rpc.Prelude.{
  ℕ, zero, suc, ◌≤◌, ◌≡◌, refl, sym, ap, ap₂, ◌∙◌, true, false, List, [], ◌∷◌, ◌++◌, length, arith,
  length-append,
}
use r0rpc.App.Invoke.{PersistTask, PersistTaskKind}
use r0rpc.App.Persist.{
  Write, completed, rpc_added, device_added, drain, persist_batch_size, of_kind, Failures, Written,
  run_creates, statement, run_persist_batch, handle_batch, work,
}
use r0rpc.App.Persist.Writes.{tasks_for, applied, applied-append, tasks_for-append}
use r0rpc.App.Persist.Batches.{never, handle_batch-Handles}

-- A batch and what is left of the queue are the queue, and a batch keeps to its size.
drain-append : (n : ℕ) (q : List PersistTask) → (drain n q).0 ++ (drain n q).1 ≡ q
unfolding drain
drain-append zero q = refl
drain-append (suc n) [] = refl
drain-append (suc n) (t ∷ q) = ap (λ r. t ∷ r) (drain-append n q)

length-drain : (n : ℕ) (q : List PersistTask) → length (drain n q).0 ≤ n
unfolding drain
length-drain zero q = omega arith
length-drain (suc n) [] = omega arith
length-drain (suc n) (t ∷ q) = omega (arith, length-drain n q)

-- A batch with room takes a task from a queue that has one.
length-left :
    (n : ℕ) (t : PersistTask) (q : List PersistTask) → length (drain (suc n) (t ∷ q)).1 ≤ length q
unfolding drain
length-left n t q =
    omega (arith, length-append (drain n q).0 (drain n q).1, ap length (drain-append n q))

-- No statement fails.
abbrev pub all_well : Failures
all_well = record {
  create_fails = never;
  complete_fails = false;
  rpc_fails = false;
  device_fails = false;
}

statement-ok :
    (write : List PersistTask → Write) (ts : List PersistTask) (rest : Written)
    → rest.1 ≡ true
    → (statement false write ts rest).1 ≡ true
statement-ok write [] rest e = e
statement-ok write (t ∷ ts) rest e = e

run_creates-ok :
    (ts : List PersistTask) (rest : Written)
    → rest.1 ≡ true
    → (run_creates all_well ts rest).1 ≡ true
unfolding run_creates
run_creates-ok [] rest e = e
run_creates-ok (t ∷ ts) rest e = ground (arith, run_creates-ok ts rest e)

batch-ok : (ts : List PersistTask) → (run_persist_batch all_well ts).1 ≡ true
unfolding run_persist_batch
batch-ok ts = run_creates-ok ts _ (
    statement-ok completed (of_kind PersistTaskKind.complete_request ts) _ (
      statement-ok rpc_added (of_kind PersistTaskKind.rpc_metric ts) _
        (statement-ok device_added (of_kind PersistTaskKind.device_metric ts) _ refl)))

pub work-Empties :
    (fuel : ℕ) (k : PersistTaskKind) (queue : List PersistTask)
    → length queue ≤ fuel
    → ((work fuel all_well never queue).1 ≡ [])
      × (applied k (work fuel all_well never queue).0 ≡ tasks_for k queue)
unfolding work
work-Empties fuel k [] h = (refl, refl)
work-Empties zero k (t ∷ queue) h = elim h [ ]
work-Empties (suc fuel) k (t ∷ queue) h =
    let batch = (drain persist_batch_size (t ∷ queue)).0 in
    let later = (drain persist_batch_size (t ∷ queue)).1 in
    let shorter = length-left 255 t queue in
    let (left, rest) = work-Empties fuel k later (omega (arith, shorter)) in
    let once = (handle_batch-Handles k all_well batch).once (batch-ok batch) in
    (
      left,
      applied-append k (handle_batch all_well never batch) (work fuel all_well never later).0
          ∙ ap₂ (λ a b. a ++ b) once rest
          ∙ sym (tasks_for-append k batch later)
          ∙ ap (tasks_for k) (drain-append persist_batch_size (t ∷ queue)),
    )
