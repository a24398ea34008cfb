-- ===== src/Rpc/Queue/Contents.antt =====
-- internal/rpc/hub.go, `jobQueue`: the queue refines the list of the jobs that have not expired.
use mathlib.Core.List.{append-nil}
use r0rpc.Prelude.{
  ℕ, ℤ, ◌-◌, ◌≤◌, ◌≡◌, refl, sym, ap, ◌∙◌, true, false, by_if, Option, none, some, List, [], ◌∷◌,
  ◌++◌, arith, length, select, length-append, length-select-le, select-append,
}
use r0rpc.Rpc.Job.{Job, HubError, client_queue_full, expired_at}
use r0rpc.Rpc.Queue.{
  JobQueue, new_job_queue, queue_limit, alive_at, prune_expired_locked, append_job, push_pruned,
  push, pop_items, pop_or_wait_locked, is_full,
}

-- The atomic count is the number of items, and at most the limit.
pub record IsBounded (q : JobQueue) : Type 0 where
  pub counted : q.count ≡ length q.items
  pub within : length q.items ≤ q.limit

-- The jobs that a consumer may still get at a time.
abbrev pub pending : ℕ → JobQueue → List Job
pending now q = select (alive_at now) q.items

-- A job that has expired stays expired.
expired_mono :
    (j : Job) (now later : ℕ) → now ≤ later → expired_at j now ≡ true → expired_at j later ≡ true
unfolding expired_at
expired_mono j now later h e = ground arith

select-select_later :
    (now later : ℕ) (js : List Job)
    → now ≤ later
    → select (alive_at later) (select (alive_at now) js) ≡ select (alive_at later) js
select-select_later now later [] h = refl
select-select_later now later (j ∷ js) h =
    ground (arith, select-select_later now later js h, expired_mono j now later h)

prune-items : (q : JobQueue) (now : ℕ) → (prune_expired_locked q now).items ≡ pending now q
unfolding prune_expired_locked
prune-items q now = go q.items refl
  where
    go : (js : List Job) → q.items ≡ js → (prune_expired_locked q now).items ≡ pending now q
    go [] e = ground arith
    go (j ∷ js) e = ground arith

prune-IsBounded : (q : JobQueue) (now : ℕ) → IsBounded q → IsBounded (prune_expired_locked q now)
unfolding prune_expired_locked
prune-IsBounded q now b = ground (arith, length-select-le (alive_at now) q.items)

append-IsBounded :
    (q : JobQueue) (j : Job) → is_full q ≡ false → IsBounded q → IsBounded (append_job q j)
unfolding append_job
append-IsBounded q j h b = ground (arith, length-append q.items (j ∷ []))

push_pruned-IsBounded : (q : JobQueue) (j : Job) → IsBounded q → IsBounded (push_pruned q j).0
unfolding push_pruned
push_pruned-IsBounded q j b = ground (arith, append-IsBounded q j)

pub push-IsBounded :
    (q : JobQueue) (now : ℕ) (job : Option Job) → IsBounded q → IsBounded (push q now job).0
unfolding push
push-IsBounded q now none b = b
push-IsBounded q now (some j) b = ground (
  arith,
  append-IsBounded q j,
  push_pruned-IsBounded (prune_expired_locked q now) j,
  prune-IsBounded q now,
)

pop_items-IsBounded :
    (now : ℕ) (q : JobQueue) (js : List Job)
    → q.items ≡ js
    → IsBounded q
    → IsBounded (pop_items now q js).0
unfolding pop_items
pop_items-IsBounded now q [] e b = ground arith
pop_items-IsBounded now q (j ∷ js) e b =
    let popped = record q { items = js; count = q.count - 1 } in
    ground (arith, pop_items-IsBounded now popped js refl)

limit-pop_items : (now : ℕ) (q : JobQueue) (js : List Job) → (pop_items now q js).0.limit ≡ q.limit
unfolding pop_items
limit-pop_items now q [] = refl
limit-pop_items now q (j ∷ js) =
    let popped = record q { items = js; count = q.count - 1 } in
    ground (arith, limit-pop_items now popped js)

pub pop-IsBounded : (q : JobQueue) (now : ℕ) → IsBounded q → IsBounded (pop_or_wait_locked q now).0
unfolding pop_or_wait_locked
pop-IsBounded q now b = pop_items-IsBounded now q q.items refl b

pub new_queue-IsBounded : (limit : ℤ) → IsBounded (new_job_queue limit)
unfolding new_job_queue
new_queue-IsBounded limit = record { counted = refl; within = omega arith }

pub limit-new_queue : (limit : ℤ) → (new_job_queue limit).limit ≡ queue_limit limit
unfolding new_job_queue
limit-new_queue limit = refl

pub limit-pop : (q : JobQueue) (now : ℕ) → (pop_or_wait_locked q now).0.limit ≡ q.limit
unfolding pop_or_wait_locked
limit-pop q now = limit-pop_items now q q.items

-- The limit never changes.
pub limit-push : (q : JobQueue) (now : ℕ) (job : Option Job) → (push q now job).0.limit ≡ q.limit
unfolding push push_pruned append_job prune_expired_locked
limit-push q now none = refl
limit-push q now (some j) = ground arith

-- `pop` returns the first job that has not expired and leaves those behind it, at this time and at
-- every later one; it returns none only if every job has expired.
abbrev pub Pops : ℕ → List Job → JobQueue × Option Job → Type 0
Pops now js (q', none) = (select (alive_at now) js ≡ []) × (q'.items ≡ [])
Pops now js (q', some j) =
    (select (alive_at now) js ≡ j ∷ pending now q')
    × ((later : ℕ)
        → now ≤ later
        → select (alive_at later) js ≡ select (alive_at later) (j ∷ q'.items))

Pops-expired :
    (now : ℕ) (j : Job) (js : List Job) (r : JobQueue × Option Job)
    → expired_at j now ≡ true
    → Pops now js r
    → Pops now (j ∷ js) r
Pops-expired now j js (q', none) e p = ground arith
Pops-expired now j js (q', some k) e p =
    (ground arith, λ later h. ground (arith, expired_mono j now later h e, p.1 later h))

pop_items-Pops : (now : ℕ) (q : JobQueue) (js : List Job) → Pops now js (pop_items now q js)
unfolding pop_items
pop_items-Pops now q [] = (refl, refl)
pop_items-Pops now q (j ∷ js) =
    let popped = record q { items = js; count = q.count - 1 } in
    by_if (Pops now (j ∷ js)) (expired_at j now)
      (λ e. Pops-expired now j js (pop_items now popped js) e (pop_items-Pops now popped js))
      λ e. (ground arith, λ later h. refl)

pub pop-Pops : (q : JobQueue) (now : ℕ) → Pops now q.items (pop_or_wait_locked q now)
unfolding pop_or_wait_locked
pop-Pops q now = pop_items-Pops now q q.items

-- What `push` must do, by whether the job is nil, expired, refused or taken.
abbrev pub Pushes : ℕ → JobQueue → Option Job → JobQueue × Option HubError → Type 0
Pushes now q none r = r ≡ (q, none)
Pushes now q (some j) (q', none) =
    (later : ℕ)
    → now ≤ later
    → pending later q' ≡ pending later q ++ select (alive_at later) (j ∷ [])
Pushes now q (some j) (q', some e) =
    (e ≡ client_queue_full)
    × (expired_at j now ≡ false)
    × (q.limit ≤ length (pending now q))
    × ((later : ℕ) → now ≤ later → pending later q' ≡ pending later q)

append-Pushes :
    (now : ℕ) (q p : JobQueue) (j : Job)
    → ((later : ℕ) → now ≤ later → pending later p ≡ pending later q)
    → Pushes now q (some j) (append_job p j, none)
unfolding append_job
append-Pushes now q p j same = λ later h.
    select-append (alive_at later) p.items (j ∷ [])
    ∙ ap (λ js. js ++ select (alive_at later) (j ∷ [])) (same later h)

pending-prune :
    (q : JobQueue) (now later : ℕ)
    → now ≤ later
    → pending later (prune_expired_locked q now) ≡ pending later q
pending-prune q now later h = rw (prune-items q now) (select-select_later now later q.items h)

expired-append :
    (now : ℕ) (q : JobQueue) (j : Job) → expired_at j now ≡ true → Pushes now q (some j) (q, none)
expired-append now q j e =
    λ later h. rw (expired_mono j now later h e) (sym (append-nil (pending later q)))

full_pending :
    (q : JobQueue) (now : ℕ)
    → IsBounded q
    → is_full (prune_expired_locked q now) ≡ true
    → q.limit ≤ length (pending now q)
unfolding prune_expired_locked
full_pending q now b full = ground (arith, prune-items q now)

push_pruned-Pushes :
    (now : ℕ) (q : JobQueue) (j : Job)
    → IsBounded q
    → expired_at j now ≡ false
    → Pushes now q (some j) (push_pruned (prune_expired_locked q now) j)
unfolding push_pruned
push_pruned-Pushes now q j b e =
    let p = prune_expired_locked q now in
    by_if (Pushes now q (some j)) (is_full p)
      (λ full. (refl, e, full_pending q now b full, pending-prune q now))
      λ room. append-Pushes now q p j (pending-prune q now)

-- `push` adds the job behind those pending, unless it is nil or has expired already; it refuses only
-- a live job, and only when as many jobs as the limit are still pending.
pub push-Pushes :
    (q : JobQueue) (now : ℕ) (job : Option Job) → IsBounded q → Pushes now q job (push q now job)
unfolding push
push-Pushes q now none b = refl
push-Pushes q now (some j) b =
    by_if (Pushes now q (some j)) (expired_at j now) (expired-append now q j) λ live.
      by_if (Pushes now q (some j)) (is_full q) (λ full. push_pruned-Pushes now q j b live)
        λ room. append-Pushes now q q j (λ later h. refl)
