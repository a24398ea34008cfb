-- ===== src/Rpc/Tests.antt =====
-- internal/rpc/hub.go: the theorems at work on small hubs and queues.
use r0rpc.Prelude.{
  ℕ, pos, none, some, List, [], ◌∷◌, ◌≡◌, ◌<◌, inl, inr, refl, arith, ◌≤◌, if◌then◌else◌, get_elem?,
  member, string_eq, ◌==◌, subst, Bool-cases, true, false,
}
use r0rpc.Prelude.Map.{lookup, find, insert, without, empty}
use r0rpc.Rpc.Job.{Job, JobResult, expired_at, Result, ok, err}
use r0rpc.Rpc.Queue.{
  JobQueue, new_job_queue, signal_locked, append_job, push, pop_items, pop_or_wait_locked,
}
use r0rpc.Rpc.Queue.Contents.{
  new_queue-IsBounded, push-IsBounded, Pushes, Pops, push-Pushes, pop-Pops,
}
use r0rpc.Rpc.Queue.Wakeup
use r0rpc.Rpc.Queue.Wakeup.{no_lost_wakeup}
use r0rpc.Rpc.State.{Hub, new_hub, normalize_max_in_flight}
use r0rpc.Rpc.Ops.{HubOp, apply_op, run_ops, registers, makes, stores, submits, pushes}
use r0rpc.Rpc.Ops.Agreement.{hub_maps_agree}
use r0rpc.Rpc.Ops.Limits.{hub_sessions_bounded}
use r0rpc.Rpc.Ops.Once.{waits, deliveries, delivered_once}
use r0rpc.Rpc.Hub.{register, new_session, ensure_group, ensure_order}
use r0rpc.Rpc.Hub.Registry.{IsRegistry}
use r0rpc.Rpc.Hub.Bounds.{Sound, flight_cap}
use r0rpc.Rpc.Queue.{queue_limit}
use r0rpc.Rpc.State.{order}
use r0rpc.Rpc.Dispatch.{Candidate, candidate, pick_session}
use r0rpc.Rpc.Dispatch.Rotation.{is_ready}
use r0rpc.Rpc.Dispatch.Choice.{Picks, start_of, pick_session-Picks}
use r0rpc.Rpc.Dispatch.Fairness.{picks, AllReady, picks_go_round}
use r0rpc.Rpc.Ops.Channels.{IsRanged, AllProper, run_ops-IsRanged}
use r0rpc.Rpc.Invoke.{Schedule, invoke}
use r0rpc.Rpc.Invoke.Returns.{Returns, Fair, invoke-Returns}
use r0rpc.Rpc.Poll.{PollSchedule, poll}
use r0rpc.Rpc.Poll.Slots.{slots_polled, jobs_polled, poll-Conducts}
use r0rpc.Rpc.Goroutine.Conduct.{Conducts}
use r0rpc.Rpc.Goroutine.Places.{Keeps, Anywhere}
use r0rpc.Rpc.Results.{submit_result}
use r0rpc.Rpc.Results.Delivery.{Answers, phase, submit_result-Answers}

abbrev test_job : Job
test_job = record {
  request_id = "r1";
  group = "g";
  action = "echo";
  client_id = "a";
  payload = 123 ∷ 125 ∷ [];
  created_at = 10;
  deadline_at = 100;
}

abbrev test_result : JobResult
test_result = record {
  request_id = "r1";
  status = "success";
  http_code = pos 200;
  payload = [];
  payload_encoding = "";
  payload_raw_size = pos 0;
  payload_compressed_size = pos 0;
  error = "";
  latency_ms = pos 3;
}

abbrev test_ops : List HubOp
test_ops =
    registers "a" "g" (pos 1) "websocket" (pos 1) 5
    ∷ registers "b" "g" (pos 1) "websocket" (pos 0) 6
    ∷ []

abbrev test_hub : Hub
test_hub = run_ops (new_hub (pos 2) (pos 2)) test_ops

-- A queue of one place that holds the job.
abbrev full_queue : JobQueue
full_queue = (push (new_job_queue (pos 1)) 20 (some test_job)).0

push-Pushes_example : Pushes 50 full_queue (some test_job) (push full_queue 50 (some test_job))
push-Pushes_example =
    push-Pushes full_queue 50 (some test_job)
      (push-IsBounded (new_job_queue (pos 1)) 20 (some test_job) (new_queue-IsBounded (pos 1)))

pop-Pops_example : Pops 50 full_queue.items (pop_or_wait_locked full_queue 50)
pop-Pops_example = pop-Pops full_queue 50

no_lost_wakeup_example :
    0 < (Wakeup.run_ops (new_job_queue (pos 1)) (Wakeup.pushes 20 (some test_job) ∷ [])).notify
unfolding Wakeup.run_ops pop_or_wait_locked pop_items new_job_queue push append_job signal_locked
    expired_at
no_lost_wakeup_example =
    no_lost_wakeup (new_job_queue (pos 1)) 10 (Wakeup.pushes 20 (some test_job) ∷ []) refl (λ e. cc)

hub_maps_agree_example : IsRegistry test_hub
hub_maps_agree_example = hub_maps_agree (pos 2) (pos 2) test_ops

hub_sessions_bounded_example :
    let h = new_hub (pos 2) (pos 2) in
    Sound (flight_cap h) (queue_limit (pos h.pending_size)) test_hub
hub_sessions_bounded_example = hub_sessions_bounded (pos 2) (pos 2) test_ops

pick_session-Picks_example : Picks test_hub "g" (pick_session test_hub "g" "")
pick_session-Picks_example =
    pick_session-Picks test_hub "g" (hub_maps_agree (pos 2) (pos 2) test_ops)

test_order : order test_hub "g" ≡ "a" ∷ "b" ∷ []
unfolding run_ops apply_op register new_session ensure_group ensure_order new_hub new_job_queue
    normalize_max_in_flight lookup find insert without empty
test_order = refl

ready_a : is_ready (candidate test_hub "g" "a") ≡ true
unfolding run_ops apply_op register new_session ensure_group ensure_order new_hub new_job_queue
    normalize_max_in_flight lookup find insert without empty candidate
ready_a = refl

ready_b : is_ready (candidate test_hub "g" "b") ≡ true
unfolding run_ops apply_op register new_session ensure_group ensure_order new_hub new_job_queue
    normalize_max_in_flight lookup find insert without empty candidate
ready_b = refl

-- The two clients have empty queues.
test_ready : AllReady test_hub "g"
test_ready c m = elim (Bool-cases ("a" == c)) [
  | inl a ↦
      subst (λ t. is_ready (candidate test_hub "g" t) ≡ true) ((string_eq.same_iff "a" c).0 a)
        ready_a
  | inr a ↦ elim (Bool-cases ("b" == c)) [
    | inl b ↦
        subst (λ t. is_ready (candidate test_hub "g" t) ≡ true) ((string_eq.same_iff "b" c).0 b)
          ready_b
    | inr b ↦
        let listed : member c ("a" ∷ "b" ∷ []) ≡ true =
          subst (λ cs. member c cs ≡ true) test_order m in
        ground arith
  ]
]

picks_go_round_example :
    (p : ℕ) × (start_of test_hub "g" 1 ≡ Candidate.ready p)
    × (get_elem? (picks 2 test_hub "g") 1 ≡ some (ok p))
picks_go_round_example =
    picks_go_round 2 1 test_hub "g" (hub_maps_agree (pos 2) (pos 2) test_ops)
      (rw test_order (omega arith)) test_ready (omega arith)

-- A hub with a call of client "a" that waits.
abbrev waiting_hub : Hub
waiting_hub = run_ops test_hub (makes ∷ stores "r1" "a" 0 20 ∷ [])

submit_result-Answers_example :
    Answers waiting_hub 30 "r1" "a"
      (phase waiting_hub 30 "r1")
      (submit_result waiting_hub "a" test_result 30)
submit_result-Answers_example = submit_result-Answers waiting_hub "a" test_result 30

delivered_once_example :
    deliveries "r1" waiting_hub (submits "a" test_result 30 ∷ submits "a" test_result 31 ∷ [])
    ≤ (if waits waiting_hub "r1" then 1 else 0)
delivered_once_example =
    delivered_once "r1" waiting_hub (submits "a" test_result 30 ∷ submits "a" test_result 31 ∷ [])
      (refl, (refl, tt))

-- The hub of the two clients has channels for the calls that wait, of which there are none.
test_hub-IsRanged : IsRanged test_hub
unfolding AllProper new_hub lookup find empty
test_hub-IsRanged =
    run_ops-IsRanged (new_hub (pos 2) (pos 2)) test_ops (refl, (refl, tt))
      (record { made = λ id w e. cc })

-- A call of the job, for which client "a" submits a result while it waits.
abbrev test_schedule : Schedule
test_schedule = record {
  before_wait = [];
  stored_at = 20;
  before_push = [];
  early = none;
  pushed_at = 21;
  waiting = submits "a" test_result 30 ∷ [];
  done = none;
  prefers_done = false;
  before_end = [];
  ended_at = 40;
}

abbrev Succeeds : JobResult → Type 0
Succeeds r = r.status ≡ "success"

test_schedule-Fair : (h : Hub) (r : Result ℕ) → Fair Succeeds h r "r1" test_schedule
unfolding AllProper
test_schedule-Fair h (err e) = tt
test_schedule-Fair h (ok p) = record {
  proper = tt;
  alone = tt;
  alone_waiting = (refl, tt);
  vouched = tt;
  vouched_waiting = (λ same at. refl, tt);
}

invoke-Returns_example :
    Returns Succeeds "r1" test_schedule (invoke test_hub "g" "" test_job test_schedule)
unfolding run_ops apply_op register new_session ensure_group ensure_order new_hub new_job_queue
    normalize_max_in_flight lookup find insert without empty
invoke-Returns_example =
    invoke-Returns Succeeds test_hub "g" "" test_job test_schedule test_hub-IsRanged refl
      (test_schedule-Fair (pick_session test_hub "g" "").0 (pick_session test_hub "g" "").1)

abbrev test_polling : PollSchedule
test_polling = record {
  before_slot = [];
  before_look = pushes 0 20 (some test_job) ∷ [];
  looked_at = 21;
  before_job = [];
  before_release = [];
}

poll-Conducts_example :
    Conducts "a" 0 [] slots_polled jobs_polled (poll true "a" test_polling)
    × Keeps none Anywhere (poll true "a" test_polling)
poll-Conducts_example = poll-Conducts true "a" test_polling
