-- ===== src/Rpc/Poll.antt =====
-- internal/rpc/hub.go, `AcquireDispatchSlot`, `Pop` and `Poll` of the queue, and `Poll` of the hub: loops that
-- wait on a channel. Each pause of a loop is in the schedule; with none left the loop is still waiting.
pub mod Places
pub mod Slots
use r0rpc.Prelude.{ℕ, String, Bool, true, false, Option, none, some, List, [], ◌∷◌}
use r0rpc.Rpc.Job.{Job, HubError, ContextError, client_session_gone, context_error}
use r0rpc.Rpc.Dispatch.{Turn}
use r0rpc.Rpc.Ops.{HubOp}
use r0rpc.Rpc.Goroutine.{Proc, ◌>>=◌, ◌>>◌, pure, gap, try_slot, give_back, look}

-- The branch that a `select` takes.
pub data Wake : Type 0 where
  signalled timed_out : Wake
  context_done : ContextError → Wake

-- A wait: what the other goroutines do meanwhile, how it ends, and the time when the loop looks again.
pub record Pause : Type 0 where
  pub meanwhile : List HubOp
  pub wake : Wake
  pub now : ℕ

-- What `AcquireDispatchSlot` returns: the session's place or an error.
pub data Slot : Type 0 where
  slot : ℕ → Slot
  no_slot : HubError → Slot
  waiting : Slot

-- `rest` is the loop from there on.
abbrev pub after_wake : Wake → Proc Slot → Proc Slot
after_wake Wake.signalled rest = rest
after_wake Wake.timed_out rest = pure Slot.waiting
after_wake (Wake.context_done e) rest = pure (Slot.no_slot (context_error e))

abbrev pub after_turn : Turn → Proc Slot → Proc Slot
after_turn (Turn.acquired p) rest = pure (Slot.slot p)
after_turn Turn.gone rest = pure (Slot.no_slot client_session_gone)
after_turn (Turn.wait n) rest = rest

unfoldable pub acquire_dispatch_slot : String → List Pause → Proc Slot
acquire_dispatch_slot c [] = do t ← try_slot c; after_turn t (pure Slot.waiting)
acquire_dispatch_slot c (pause ∷ pauses) =
    let rest = acquire_dispatch_slot c pauses in
    do t ← try_slot c; after_turn t (gap pause.meanwhile >> after_wake pause.wake rest)

-- What `Pop` and `Poll` of the queue return: a job, no job within the time, or an error.
pub data Popped : Type 0 where
  job : Job → Popped
  nothing waiting : Popped
  no_job : ContextError → Popped

-- `timer` says whether there is one.
abbrev pub after_pause : Bool → Wake → Proc Popped → Proc Popped
after_pause timer Wake.signalled rest = rest
after_pause true Wake.timed_out rest = pure Popped.nothing
after_pause false Wake.timed_out rest = pure Popped.waiting
after_pause timer (Wake.context_done e) rest = pure (Popped.no_job e)

abbrev pub after_look : Option Job → Proc Popped → Proc Popped
after_look none rest = rest
after_look (some j) rest = pure (Popped.job j)

-- `Pop` without a timer, and the loop of `Poll` with one. `now` is the time of the first look.
unfoldable pub poll_queue : Bool → ℕ → ℕ → List Pause → Proc Popped
poll_queue timer p now [] = do found ← look p now; after_look found (pure Popped.waiting)
poll_queue timer p now (pause ∷ pauses) =
    let rest = poll_queue timer p pause.now pauses in
    do
      found ← look p now
      after_look found (gap pause.meanwhile >> after_pause timer pause.wake rest)

-- What `Poll` of the hub returns.
pub data Polled : Type 0 where
  job : Job → Polled
  nothing waiting_for_slot waiting_for_job : Polled
  failed : HubError → Polled

pub record PollSchedule : Type 0 where
  pub before_slot : List Pause
  pub before_look : List HubOp
  pub looked_at : ℕ
  pub before_job : List Pause
  pub before_release : List HubOp

abbrev pub release_and_return : String → PollSchedule → Polled → Proc Polled
release_and_return c s r = do gap s.before_release; give_back c; pure r

abbrev pub poll_result : String → PollSchedule → Popped → Proc Polled
poll_result c s (Popped.job j) = pure (Polled.job j)
poll_result c s Popped.nothing = release_and_return c s Polled.nothing
poll_result c s Popped.waiting = pure Polled.waiting_for_job
poll_result c s (Popped.no_job e) = release_and_return c s (Polled.failed (context_error e))

abbrev pub poll_with : Bool → String → PollSchedule → Slot → Proc Polled
poll_with timer c s (Slot.no_slot e) = pure (Polled.failed e)
poll_with timer c s Slot.waiting = pure Polled.waiting_for_slot
poll_with timer c s (Slot.slot p) = do
  gap s.before_look
  found ← poll_queue timer p s.looked_at s.before_job
  poll_result c s found

-- `timer` says whether the wait that the client asks for is positive.
unfoldable pub poll : Bool → String → PollSchedule → Proc Polled
poll timer c s = do found ← acquire_dispatch_slot c s.before_slot; poll_with timer c s found
