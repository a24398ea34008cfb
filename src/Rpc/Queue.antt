-- ===== src/Rpc/Queue.antt =====
-- internal/rpc/hub.go, `jobQueue`: a bounded queue of jobs under one mutex. Each function is one
-- critical section; the time read in it is an argument. The channel `notify` is a number: it is
-- replaced by the next one when it is closed, so a number below the current one is a closed channel.
pub mod Contents
pub mod Wakeup
use r0rpc.Prelude.{
  ℕ, zero, suc, ◌+◌, ◌-◌, ℤ, pos, negsuc, Bool, true, false, not, ◌||◌, Option, none, some, List,
  [], ◌∷◌, ◌++◌, leb, length, select, if◌then◌else◌,
}
use r0rpc.Rpc.Job.{Job, HubError, client_queue_full, expired_at, ContextError}

pub record JobQueue : Type 0 where
  pub items : List Job
  pub limit : ℕ
  pub notify : ℕ
  pub count : ℕ

-- `if limit <= 0 { limit = 1 }`
abbrev pub queue_limit : ℤ → ℕ
queue_limit (pos (suc n)) = suc n
queue_limit _ = 1

unfoldable pub new_job_queue : ℤ → JobQueue
new_job_queue limit = record { items = []; limit = queue_limit limit; notify = 0; count = 0 }

unfoldable pub signal_locked : JobQueue → JobQueue
signal_locked q = record q { notify = q.notify + 1 }

abbrev pub alive_at : ℕ → Job → Bool
alive_at now job = not (expired_at job now)

unfoldable pub prune_expired_locked : JobQueue → ℕ → JobQueue
prune_expired_locked q now = elim q.items [
  | [] ↦ q
  | _ ∷ _ ↦
      let filtered = select (alive_at now) q.items in
      record q { items = filtered; count = length filtered }
]

abbrev is_full : JobQueue → Bool
is_full q = leb q.limit q.count

unfoldable pub append_job : JobQueue → Job → JobQueue
unfolding signal_locked
append_job q job = signal_locked (record q { items = q.items ++ job ∷ []; count = q.count + 1 })

-- The second half of `Push`, behind the room made by pruning; `none` is a nil error.
unfoldable pub push_pruned : JobQueue → Job → JobQueue × Option HubError
unfolding append_job
push_pruned q job = if is_full q then (q, some client_queue_full) else (append_job q job, none)

unfoldable pub push : JobQueue → ℕ → Option Job → JobQueue × Option HubError
push q now none = (q, none)
push q now (some job) =
    if expired_at job now
    then (q, none)
    else if is_full q
    then push_pruned (prune_expired_locked q now) job
    else (append_job q job, none)

-- The loop of `popOrWaitLocked` over the items that are left.
unfoldable pub pop_items : ℕ → JobQueue → List Job → JobQueue × Option Job
pop_items now q [] = (record q { items = [] }, none)
pop_items now q (job ∷ rest) =
    let popped = record q { items = rest; count = q.count - 1 } in
    let more = pop_items now popped rest in if expired_at job now then more else (popped, some job)

-- With no job the caller waits on `notify` as it is then.
unfoldable pub pop_or_wait_locked : JobQueue → ℕ → JobQueue × Option Job
pop_or_wait_locked q now = pop_items now q q.items
