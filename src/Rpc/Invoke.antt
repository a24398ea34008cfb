-- ===== src/Rpc/Invoke.antt =====
-- internal/rpc/hub.go, `Invoke`: a call, with the critical sections of the other goroutines that come
-- between its own. A random choice of `select`, and what the context reports, are in the schedule.
pub mod Waiting
pub mod Steps
pub mod Returns
use r0rpc.Prelude.{ℕ, String, Bool, Option, none, some, List, get_elem?, if◌then◌else◌}
use r0rpc.Rpc.Job.{Job, JobResult, ContextError, HubError, Result, ok, err, context_error}
use r0rpc.Rpc.State.{Hub}
use r0rpc.Rpc.Dispatch.{pick_session, push_pending}
use r0rpc.Rpc.Results.{make_channel, receive, store_waiter, drop_waiter, expire_waiter}
use r0rpc.Rpc.Ops.{HubOp, run_ops}

-- What the other goroutines do before each critical section of a call, and the times that it reads.
pub record Schedule : Type 0 where
  pub before_wait : List HubOp
  pub stored_at : ℕ
  pub before_push : List HubOp
  -- `ctx.Err()` before the push
  pub early : Option ContextError
  pub pushed_at : ℕ
  -- up to the `select`
  pub waiting : List HubOp
  -- `ctx.Done()` at the `select`, and whether it is chosen when there is a result too
  pub done : Option ContextError
  pub prefers_done : Bool
  pub before_end : List HubOp
  pub ended_at : ℕ

-- `session.ClientID`; a session that was picked is in the heap.
unfoldable pub client_at : Hub → ℕ → String
client_at h p = elim (get_elem? h.heap p) [ none ↦ "" | some s ↦ s.client_id ]

-- The result or the error, and the client; `none` as long as the call is blocked in `select`.
abbrev pub Outcome : Type 0
Outcome = Hub × Option (Result JobResult × String)

-- The branch of `select` for a context that is done.
unfoldable pub give_up : Hub → String → String → Schedule → ContextError → Outcome
give_up h id client s e =
    (expire_waiter (run_ops h s.before_end) id s.ended_at, some (err (context_error e), client))

-- The `select`, by what the context reports and by the result that is there: `received` is the hub
-- without the result.
unfoldable pub select :
    Hub → Hub → String → String → Schedule → Option ContextError → Option JobResult → Outcome
unfolding give_up
select h received id client s none none = (h, none)
select h received id client s none (some result) = (received, some (ok result, client))
select h received id client s (some e) none = give_up h id client s e
select h received id client s (some e) (some result) =
    if s.prefers_done then give_up h id client s e else (received, some (ok result, client))

unfoldable pub await_result : Hub → String → String → ℕ → Schedule → Outcome
unfolding select
await_result h id client ch s =
    let (received, taken) = receive h ch in select h received id client s s.done taken

-- The part of `Invoke` behind the push, by its error.
unfoldable pub after_push : Hub → String → String → ℕ → Schedule → Option HubError → Outcome
unfolding await_result
after_push h id client ch s (some e) =
    (drop_waiter (run_ops h s.before_end) id, some (err e, client))
after_push h id client ch s none = await_result (run_ops h s.waiting) id client ch s

-- The part behind `storeWaiter`, by what `ctx.Err()` reports.
unfoldable pub after_check : Hub → ℕ → String → ℕ → Job → Schedule → Option ContextError → Outcome
unfolding after_push
after_check h p client ch job s (some e) =
    (drop_waiter (run_ops h s.before_end) job.request_id, some (err (context_error e), client))
after_check h p client ch job s none =
    let (pushed, error) = push_pending h p s.pushed_at (some (record job { client_id = client })) in
    after_push pushed job.request_id client ch s error

unfoldable pub invoke_picked : Hub → ℕ → Job → Schedule → Outcome
unfolding after_check
invoke_picked h p job s =
    let client = client_at h p in
    let (made, ch) = make_channel (run_ops h s.before_wait) in
    let stored = store_waiter made job.request_id client ch s.stored_at in
    after_check (run_ops stored s.before_push) p client ch job s s.early

-- `Invoke` with the session that was picked, or the error.
unfoldable pub invoke_with : Hub → Result ℕ → Job → Schedule → Outcome
unfolding invoke_picked
invoke_with h (err e) job s = (h, some (err e, ""))
invoke_with h (ok p) job s = invoke_picked h p job s

unfoldable pub invoke : Hub → String → String → Job → Schedule → Outcome
unfolding invoke_with
invoke h group preferred_client job s =
    let (picked, session) = pick_session h group preferred_client in
    invoke_with picked session job s
