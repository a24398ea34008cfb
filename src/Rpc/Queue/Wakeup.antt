-- ===== src/Rpc/Queue/Wakeup.antt =====
-- internal/rpc/hub.go, `jobQueue`: a consumer that found no job is woken by the next one.
use native.Mathlib.Decide.{dec_lt}
use r0rpc.Prelude.{
  ℕ, ◌-◌, ◌≤◌, ◌<◌, ◌≡◌, ◌≢◌, refl, by_if, Option, none, some, List, [], ◌∷◌, arith,
}
use r0rpc.Rpc.Job.{Job, HubError, expired_at}
use r0rpc.Rpc.Queue.{
  JobQueue, signal_locked, prune_expired_locked, append_job, push_pruned, push, pop_items,
  pop_or_wait_locked, is_full,
}

-- The critical sections that goroutines enter, in the order in which they get the mutex.
pub data QueueOp : Type 0 where
  pushes : ℕ → Option Job → QueueOp
  pops : ℕ → QueueOp

unfoldable pub run_ops : JobQueue → List QueueOp → JobQueue
run_ops q [] = q
run_ops q (pushes now job ∷ ops) = run_ops (push q now job).0 ops
run_ops q (pops now ∷ ops) = run_ops (pop_or_wait_locked q now).0 ops

-- The channel `n` is open only as long as the queue is empty.
record Waits (n : ℕ) (q : JobQueue) : Type 0 where
  later : n ≤ q.notify
  idle : q.notify ≡ n → q.items ≡ []

prune-Waits : (n now : ℕ) (q : JobQueue) → Waits n q → Waits n (prune_expired_locked q now)
unfolding prune_expired_locked
prune-Waits n now q w = record { later = ground (arith, w.later); idle = λ e. go q.items refl e }
  where
    go :
        (js : List Job)
        → q.items ≡ js
        → (prune_expired_locked q now).notify ≡ n
        → (prune_expired_locked q now).items ≡ []
    go [] e s = ground arith
    go (j ∷ js) e s = ground (arith, w.idle)

append-Waits : (n : ℕ) (q : JobQueue) (j : Job) → Waits n q → Waits n (append_job q j)
unfolding append_job signal_locked
append-Waits n q j w = record {
  later = omega (arith, w.later);
  idle = λ e. absurd (omega (arith, w.later));
}

push-Waits : (n now : ℕ) (q : JobQueue) (job : Option Job) → Waits n q → Waits n (push q now job).0
unfolding push push_pruned
push-Waits n now q none w = w
push-Waits n now q (some j) w =
    let p = prune_expired_locked q now in
    by_if (λ (r : JobQueue × Option HubError). Waits n r.0) (expired_at j now) (λ _. w)
      λ _.
        by_if (λ (r : JobQueue × Option HubError). Waits n r.0) (is_full q)
          (λ _.
            by_if (λ (r : JobQueue × Option HubError). Waits n r.0) (is_full p)
              (λ _. prune-Waits n now q w) (λ _. append-Waits n p j (prune-Waits n now q w)))
          λ _. append-Waits n q j w

pop_items-empty :
    (now : ℕ) (q : JobQueue) (js : List Job) → (pop_items now q js).0.notify ≡ q.notify
unfolding pop_items
pop_items-empty now q [] = refl
pop_items-empty now q (j ∷ js) =
    let popped = record q { items = js; count = q.count - 1 } in
    by_if (λ (r : JobQueue × Option Job). r.0.notify ≡ q.notify) (expired_at j now)
      (λ _. pop_items-empty now popped js) λ _. refl

pop_items-nil :
    (now : ℕ) (q : JobQueue) (js : List Job) → js ≡ [] → (pop_items now q js).0.items ≡ []
unfolding pop_items
pop_items-nil now q [] e = refl
pop_items-nil now q (j ∷ js) e = cc

pop-Waits : (n now : ℕ) (q : JobQueue) → Waits n q → Waits n (pop_or_wait_locked q now).0
unfolding pop_or_wait_locked
pop-Waits n now q w = record {
  later = omega (arith, w.later, pop_items-empty now q q.items);
  idle = λ e. pop_items-nil now q q.items (w.idle (omega (arith, pop_items-empty now q q.items)));
}

run-Waits : (n : ℕ) (q : JobQueue) (ops : List QueueOp) → Waits n q → Waits n (run_ops q ops)
unfolding run_ops
run-Waits n q [] w = w
run-Waits n q (pushes now job ∷ ops) w =
    run-Waits n (push q now job).0 ops (push-Waits n now q job w)
run-Waits n q (pops now ∷ ops) w =
    run-Waits n (pop_or_wait_locked q now).0 ops (pop-Waits n now q w)

none_found :
    (now : ℕ) (q : JobQueue) (js : List Job)
    → (pop_items now q js).1 ≡ none
    → (pop_items now q js).0.items ≡ []
unfolding pop_items
none_found now q [] e = refl
none_found now q (j ∷ js) e =
    let popped = record q { items = js; count = q.count - 1 } in
    ground (arith, none_found now popped js)

start :
    (q : JobQueue) (now : ℕ)
    → (pop_or_wait_locked q now).1 ≡ none
    → Waits (pop_or_wait_locked q now).0.notify (pop_or_wait_locked q now).0
unfolding pop_or_wait_locked
start q now e = record { later = omega arith; idle = λ _. none_found now q q.items e }

closed : (n : ℕ) (q : JobQueue) → Waits n q → q.items ≢ [] → n < q.notify
closed n q w busy = elim (dec_lt n q.notify) [
  | yes h ↦ h
  | no h ↦ absurd (busy (w.idle (omega (arith, w.later))))
]

-- When a consumer found no job and waits on the channel that it saw, then after any further critical
-- sections of other goroutines either the queue is empty or that channel has been closed.
pub no_lost_wakeup :
    (q : JobQueue) (now : ℕ) (ops : List QueueOp)
    → (pop_or_wait_locked q now).1 ≡ none
    → (run_ops (pop_or_wait_locked q now).0 ops).items ≢ []
    → (pop_or_wait_locked q now).0.notify < (run_ops (pop_or_wait_locked q now).0 ops).notify
no_lost_wakeup q now ops e busy =
    closed _ _ (run-Waits _ (pop_or_wait_locked q now).0 ops (start q now e)) busy
