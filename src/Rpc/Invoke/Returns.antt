-- ===== src/Rpc/Invoke/Returns.antt =====
-- internal/rpc/hub.go, `Invoke`: what a call returns, and that it leaves nothing behind.
use r0rpc.Prelude.{
  ℕ, ◌≡◌, refl, ap, inl, inr, String, true, false, Option, none, some, string_eq, arith, AllOf,
  by_if, same_refl, length, get_elem?-append_last,
}
use r0rpc.Prelude.Map.{lookup, lookup-delete, lookup-insert}
use r0rpc.Rpc.Job.{Job, JobResult, ContextError, Result, ok, err, HubError}
use r0rpc.Rpc.State.{Hub}
use r0rpc.Rpc.Dispatch.{pick_session, push_pending}
use r0rpc.Rpc.Dispatch.Frame.{push_pending-SameCalls}
use r0rpc.Rpc.Results.{make_channel, receive, store_waiter, drop_waiter, cleanup_completed_locked}
use r0rpc.Rpc.Results.Mail.{SameMail, receive-Takes, expire-Ends}
use r0rpc.Rpc.Ops.{run_ops, apply_op, picks}
use r0rpc.Rpc.Ops.Channels.{IsRanged, AllProper, run_ops-IsRanged, step-IsRanged}
use r0rpc.Rpc.Ops.Moves.{pick-SameMail}
use r0rpc.Rpc.Ops.Once.{waits}
use r0rpc.Rpc.Invoke.{
  Schedule, client_at, Outcome, give_up, select, await_result, after_push, after_check, invoke_with,
  invoke_picked, invoke,
}
use r0rpc.Rpc.Invoke.Waiting.{
  entry_of, is_foreign, Vouches, Tracks, Unmoved-Tracks, SameMail-Unmoved,
}
use r0rpc.Rpc.Invoke.Steps.{run_ops-Tracks}

-- What holds of the end of a call: it has left the calls that wait, and a result that it returns is
-- for this call and has the property. A call that has not ended waits, and its context is not done.
abbrev pub Returns : (JobResult → Type 0) → String → Schedule → Outcome → Type 0
Returns Q id s (h, none) = (waits h id ≡ true) × (s.done ≡ none)
Returns Q id s (h, some (err e, client)) = waits h id ≡ false
Returns Q id s (h, some (ok result, client)) =
    (waits h id ≡ false) × (result.request_id ≡ id) × Q result

module _ (Q : JobResult → Type 0) (id c : String) (ch : ℕ) (s : Schedule) where
  gives_up : (h : Hub) (e : ContextError) → Returns Q id s (give_up h id c s e)
  unfolding give_up
  gives_up h e =
      let k = run_ops h s.before_end in
      ground (arith, (expire-Ends k id s.ended_at).waiters id, same_refl id)

  empty-Returns :
      (h k : Hub) (d : Option ContextError)
      → s.done ≡ d
      → waits h id ≡ true
      → Returns Q id s (select h k id c s d none)
  unfolding select
  empty-Returns h k none e a = (a, e)
  empty-Returns h k (some x) e a = gives_up h x

  filled-Returns :
      (h k : Hub) (d : Option ContextError) (r : JobResult)
      → waits k id ≡ false
      → r.request_id ≡ id
      → Q r
      → Returns Q id s (select h k id c s d (some r))
  unfolding select
  filled-Returns h k none r a i q = (a, i, q)
  filled-Returns h k (some x) r a i q =
      by_if (Returns Q id s) s.prefers_done (λ _. gives_up h x) λ _. (a, i, q)

  awaits : (h : Hub) → Tracks Q id c ch h → Returns Q id s (await_result h id c ch s)
  unfolding await_result receive
  awaits h v = elim v.stage [
    | inl (a, b) ↦ rw (b, await_result, receive) (empty-Returns h h s.done refl (ground arith))
    | inr (a, (r, b, i, q)) ↦
        rw (b, await_result, receive)
          (filled-Returns h _ s.done r
            (ground (arith, ap (λ m. lookup id m) (receive-Takes h ch).waiters)) i q)
  ]

-- What the other goroutines do and do not: they use channels that they have made, leave the call and
-- its channel alone, and every result that they submit for the call as its client has the property.
pub record IsFair (Q : JobResult → Type 0) (h : Hub) (p : ℕ) (id : String) (s : Schedule)
    : Type 0 where
  pub proper : AllProper h s.before_wait
  pub alone :
      AllOf
        (λ op. is_foreign id (length (run_ops h s.before_wait).channels) op ≡ true)
        s.before_push
  pub alone_waiting :
      AllOf (λ op. is_foreign id (length (run_ops h s.before_wait).channels) op ≡ true) s.waiting
  pub vouched : AllOf (Vouches Q id (client_at h p)) s.before_push
  pub vouched_waiting : AllOf (Vouches Q id (client_at h p)) s.waiting

abbrev pub Fair : (JobResult → Type 0) → Hub → Result ℕ → String → Schedule → Type 0
Fair Q h (err e) id s = Unit
Fair Q h (ok p) id s = IsFair Q h p id s

module _ (Q : JobResult → Type 0) (id c : String) (s : Schedule) where
  dropped : (h : Hub) → waits (drop_waiter h id) id ≡ false
  unfolding drop_waiter
  dropped h = ground (arith, lookup-delete id id h.waiters, same_refl id)

  -- The wait begins with a channel of its own.
  stored-Tracks :
      (h : Hub) (now : ℕ)
      → IsRanged h
      → Tracks Q id c
          (length h.channels)
          (store_waiter (make_channel h).0 id c (length h.channels) now)
  unfolding store_waiter make_channel cleanup_completed_locked
  stored-Tracks h now v =
      let entry = entry_of c (length h.channels) in
      record {
        separate = λ other w ne e.
            let lt = v.made other w (
              ground
                (arith, lookup-insert id entry other h.waiters, (string_eq.same_iff id other).0)) in
            λ eq. omega (arith, lt, eq);
        stage = inl (
          ground (arith, lookup-insert id entry id h.waiters, same_refl id),
          get_elem?-append_last h.channels none,
        );
      }

  after_push-Returns :
      (h : Hub) (ch : ℕ) (e : Option HubError)
      → AllOf (λ op. is_foreign id ch op ≡ true) s.waiting
      → AllOf (Vouches Q id c) s.waiting
      → Tracks Q id c ch h
      → Returns Q id s (after_push h id c ch s e)
  unfolding after_push
  after_push-Returns h ch (some e) f q v = dropped (run_ops h s.before_end)
  after_push-Returns h ch none f q v =
      awaits Q id c ch s (run_ops h s.waiting) (run_ops-Tracks Q id c ch h s.waiting f q v)

module _ (Q : JobResult → Type 0) (c : String) (s : Schedule) where
  after_check-Returns :
      (h : Hub) (p ch : ℕ) (job : Job) (e : Option ContextError)
      → AllOf (λ op. is_foreign job.request_id ch op ≡ true) s.waiting
      → AllOf (Vouches Q job.request_id c) s.waiting
      → Tracks Q job.request_id c ch h
      → Returns Q job.request_id s (after_check h p c ch job s e)
  unfolding after_check
  after_check-Returns h p ch job (some e) f q v =
      dropped Q job.request_id c s (run_ops h s.before_end)
  after_check-Returns h p ch job none f q v =
      let id = job.request_id in
      let pushed = push_pending h p s.pushed_at (some (record job { client_id = c })) in
      let kept = push_pending-SameCalls h p s.pushed_at (some (record job { client_id = c })) in
      let mail : SameMail h pushed.0 = record {
        waiters = kept.waiters;
        channels = kept.channels;
      } in
      after_push-Returns Q id c s pushed.0 ch pushed.1 f q
        (Unmoved-Tracks Q id c ch h pushed.0 (SameMail-Unmoved Q id c ch h pushed.0 mail) v)

invoke_picked-Returns :
    (Q : JobResult → Type 0) (h : Hub) (p : ℕ) (job : Job) (s : Schedule)
    → IsRanged h
    → IsFair Q h p job.request_id s
    → Returns Q job.request_id s (invoke_picked h p job s)
unfolding invoke_picked make_channel
invoke_picked-Returns Q h p job s v fair =
    let id = job.request_id in
    let c = client_at h p in
    let k = run_ops h s.before_wait in
    let ch = length k.channels in
    let stored = store_waiter (make_channel k).0 id c ch s.stored_at in
    let start =
      stored-Tracks Q id c s k s.stored_at (run_ops-IsRanged h s.before_wait fair.proper v) in
    after_check-Returns Q c s (run_ops stored s.before_push) p ch job s.early fair.alone_waiting
      fair.vouched_waiting
      (run_ops-Tracks Q id c ch stored s.before_push fair.alone fair.vouched start)

invoke_with-Returns :
    (Q : JobResult → Type 0) (h : Hub) (r : Result ℕ) (job : Job) (s : Schedule)
    → IsRanged h
    → waits h job.request_id ≡ false
    → Fair Q h r job.request_id s
    → Returns Q job.request_id s (invoke_with h r job s)
unfolding invoke_with
invoke_with-Returns Q h (err e) job s v idle fair = idle
invoke_with-Returns Q h (ok p) job s v idle fair = invoke_picked-Returns Q h p job s v fair

-- In a hub whose calls wait on channels that were made, and in which the call's id does not wait yet,
-- with any critical sections of fair goroutines between those of the call: however `Invoke` ends, the
-- id no longer waits. A result that it returns is for this id, and has every property that all the
-- results have that the picked client submits for the id while the call waits. It is blocked only
-- while the id waits and the context is not done.
pub invoke-Returns :
    (Q : JobResult → Type 0) (h : Hub) (group preferred_client : String) (job : Job) (s : Schedule)
    → IsRanged h
    → waits h job.request_id ≡ false
    → (let (picked, session) = pick_session h group preferred_client in
        Fair Q picked session job.request_id s)
    → Returns Q job.request_id s (invoke h group preferred_client job s)
unfolding invoke apply_op
invoke-Returns Q h group preferred_client job s v idle fair =
    let picked = pick_session h group preferred_client in
    let mail = pick-SameMail h group preferred_client in
    invoke_with-Returns Q picked.0 picked.1 job s
      (step-IsRanged h (picks group preferred_client) refl v)
      (ground (arith, ap (λ m. lookup job.request_id m) mail.waiters)) fair
