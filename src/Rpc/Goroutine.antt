-- ===== src/Rpc/Goroutine.antt =====
-- internal/rpc/hub.go: a method that takes the mutexes several times, as a program that changes the hub
-- and logs what it did. Between two of its critical sections stand those of the other goroutines, which
-- the caller's schedule gives; a program that waits on a channel takes the branch of the schedule.
pub mod Runs
pub mod Accounts
pub mod Conduct
pub mod Places
use r0rpc.Prelude.{ℕ, String, Option, none, some, List, [], ◌∷◌, ◌++◌}
use r0rpc.Rpc.Job.{Job, HubError, ContextError}
use r0rpc.Rpc.State.{Hub}
use r0rpc.Rpc.Dispatch.{Turn, acquire_turn, release_dispatch_locked, pop_pending, requeue}
use r0rpc.Rpc.Ops.{HubOp, run_ops}

pub data Event : Type 0 where
  others : List HubOp → Event
  took : String → ℕ → Event
  got_no_slot : String → Turn → Event
  gave_back : String → Event
  popped : ℕ → ℕ → Job → Event
  found_none : ℕ → ℕ → Event
  sent : Job → Event
  requeued : String → List HubOp → ℕ → Job → Option HubError → Event

pub record Done (A : Type 0) : Type 0 where
  pub hub : Hub
  pub log : List Event
  pub value : A

abbrev pub Proc : Type 0 → Type 0
Proc A = Hub → Done A

abbrev pub pure : {A : Type 0} → A → Proc A
pure a h = record { hub = h; log = []; value = a }

infixl 5 ◌>>=◌ ◌>>◌
abbrev pub ◌>>=◌ : {A B : Type 0} → Proc A → (A → Proc B) → Proc B
◌>>=◌ m f h =
    let r = m h in
    let s = f r.value r.hub in record { hub = s.hub; log = r.log ++ s.log; value = s.value }

abbrev pub ◌>>◌ : {A B : Type 0} → Proc A → Proc B → Proc B
m >> k = m >>= λ _. k

-- The critical sections of the other goroutines.
abbrev pub gap : List HubOp → Proc (Unit {0})
gap ops h = record { hub = run_ops h ops; log = Event.others ops ∷ []; value = tt }

abbrev pub turn_event : String → Turn → Event
turn_event c (Turn.acquired p) = Event.took c p
turn_event c t = Event.got_no_slot c t

unfoldable pub try_slot : String → Proc Turn
try_slot c h =
    let (k, t) = acquire_turn h c in record { hub = k; log = turn_event c t ∷ []; value = t }

-- `ReleaseDispatchSlot`
unfoldable pub give_back : String → Proc (Unit {0})
give_back c h = record {
  hub = release_dispatch_locked h c;
  log = Event.gave_back c ∷ [];
  value = tt;
}

abbrev pub pop_event : ℕ → ℕ → Option Job → Event
pop_event p now none = Event.found_none p now
pop_event p now (some job) = Event.popped p now job

-- One look into the queue of the session at a place.
unfoldable pub look : ℕ → ℕ → Proc (Option Job)
look p now h =
    let (k, job) = pop_pending h p now in
    record { hub = k; log = pop_event p now job ∷ []; value = job }

unfoldable pub send : Job → Proc (Unit {0})
send job h = record { hub = h; log = Event.sent job ∷ []; value = tt }

-- `Requeue`, with what the other goroutines do between its lookup and its push.
unfoldable pub put_back : String → List HubOp → ℕ → Job → Proc (Unit {0})
put_back c ops now job h =
    let (k, e) = requeue (λ g. run_ops g ops) h c now (some job) in
    record { hub = k; log = Event.requeued c ops now job e ∷ []; value = tt }
