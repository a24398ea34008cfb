-- ===== src/App/Persist.antt =====
-- internal/app/app.go and internal/app/persist_batch.go: the queue of the tasks for the store, and the workers
-- that write them. Which statements fail is an argument; a write of metrics carries the tasks that it
-- adds up (see Metrics).
pub mod Writes
pub mod Batches
pub mod Worker
use r0rpc.Prelude.{
  ℕ, zero, suc, ◌+◌, Bool, true, false, not, ◌&&◌, Option, none, some, List, [], ◌∷◌, ◌++◌, ltb,
  length, if◌then◌else◌,
}
use r0rpc.App.Invoke.{PersistTask, PersistTaskKind}

-- What is written to the store.
pub data Write : Type 0 where
  created : PersistTask → Write
  completed rpc_added device_added : List PersistTask → Write

-- `enqueuePersist`: with no room the task goes to a goroutine of its own.
unfoldable pub enqueue_persist :
    ℕ → List PersistTask → PersistTask → List PersistTask × Option PersistTask
enqueue_persist capacity queue task =
    if ltb (length queue) capacity then (queue ++ task ∷ [], none) else (queue, some task)

-- The loop `drainLoop`: the batch and what is left of the queue.
unfoldable pub drain : ℕ → List PersistTask → List PersistTask × List PersistTask
drain zero queue = ([], queue)
drain (suc room) [] = ([], [])
drain (suc room) (task ∷ queue) = let (batch, rest) = drain room queue in (task ∷ batch, rest)

abbrev pub persist_batch_size : ℕ
persist_batch_size = 256

-- `runPersistTask`
abbrev pub write_of : PersistTaskKind → PersistTask → Write
write_of PersistTaskKind.create_request t = created t
write_of PersistTaskKind.complete_request t = completed (t ∷ [])
write_of PersistTaskKind.rpc_metric t = rpc_added (t ∷ [])
write_of PersistTaskKind.device_metric t = device_added (t ∷ [])

unfoldable pub run_persist_task : (PersistTask → Bool) → PersistTask → List Write
run_persist_task fails t = if fails t then [] else write_of t.kind t ∷ []

abbrev pub same_kind : PersistTaskKind → PersistTaskKind → Bool
same_kind PersistTaskKind.create_request PersistTaskKind.create_request = true
same_kind PersistTaskKind.complete_request PersistTaskKind.complete_request = true
same_kind PersistTaskKind.rpc_metric PersistTaskKind.rpc_metric = true
same_kind PersistTaskKind.device_metric PersistTaskKind.device_metric = true
same_kind _ _ = false

unfoldable pub of_kind : PersistTaskKind → List PersistTask → List PersistTask
of_kind k [] = []
of_kind k (t ∷ ts) = let rest = of_kind k ts in if same_kind k t.kind then t ∷ rest else rest

-- Which statements of a batch fail.
pub record Failures : Type 0 where
  pub create_fails : PersistTask → Bool
  pub complete_fails : Bool
  pub rpc_fails : Bool
  pub device_fails : Bool

-- What was written, and whether there was no error.
abbrev pub Written : Type 0
Written = List Write × Bool

abbrev pub before : List Write → Written → Written
before log (more, is_ok) = (log ++ more, is_ok)

-- The loop over the tasks, of which those that create a request are run at once, and `rest` behind it.
unfoldable pub run_creates : Failures → List PersistTask → Written → Written
run_creates f [] rest = rest
run_creates f (t ∷ ts) rest =
    let more = run_creates f ts rest in
    if same_kind PersistTaskKind.create_request t.kind
    then (if f.create_fails t then ([], false) else before (created t ∷ []) more)
    else more

-- A statement for the tasks of a kind, if there are some, and `rest` behind it.
abbrev pub statement : Bool → (List PersistTask → Write) → List PersistTask → Written → Written
statement fails write [] rest = rest
statement fails write (t ∷ ts) rest =
    if fails then ([], false) else before (write (t ∷ ts) ∷ []) rest

unfoldable pub run_persist_batch : Failures → List PersistTask → Written
unfolding run_creates of_kind
run_persist_batch f tasks = run_creates f tasks (
    statement f.complete_fails completed (of_kind PersistTaskKind.complete_request tasks) (
      statement f.rpc_fails rpc_added (of_kind PersistTaskKind.rpc_metric tasks) (
        statement f.device_fails device_added (of_kind PersistTaskKind.device_metric tasks)
          ([], true))))

-- The fallback, task by task.
unfoldable pub run_each : (PersistTask → Bool) → List PersistTask → List Write
unfolding run_persist_task
run_each fails [] = []
run_each fails (t ∷ ts) = run_persist_task fails t ++ run_each fails ts

-- What a worker does with a batch.
unfoldable pub handle_batch : Failures → (PersistTask → Bool) → List PersistTask → List Write
unfolding run_persist_batch run_each
handle_batch f fails tasks =
    let (log, is_ok) = run_persist_batch f tasks in
    if is_ok then log else if ltb 1 (length tasks) then log ++ run_each fails tasks else log

-- A worker that takes what is in the queue, batch by batch, on fuel.
unfoldable pub work :
    ℕ → Failures → (PersistTask → Bool) → List PersistTask → List Write × List PersistTask
unfolding handle_batch drain
work fuel f fails [] = ([], [])
work zero f fails (t ∷ queue) = ([], t ∷ queue)
work (suc fuel) f fails (t ∷ queue) =
    let (batch, rest) = drain persist_batch_size (t ∷ queue) in
    let (log, left) = work fuel f fails rest in (handle_batch f fails batch ++ log, left)
