-- ===== src/Rpc/Poll/Slots.antt =====
-- internal/rpc/hub.go, `Poll`: a client holds a slot for every job that it is given, and for nothing else.
use r0rpc.Prelude.{
  ℕ, ◌≡◌, refl, subst, String, Bool, true, false, Option, none, some, List, [], ◌∷◌,
}
use r0rpc.Rpc.Job.{Job}
use r0rpc.Rpc.Dispatch.{Turn}
use r0rpc.Rpc.Goroutine.{Proc, ◌>>=◌, pure, gap, try_slot, give_back, look}
use r0rpc.Rpc.Goroutine.Conduct.{
  Conducts, bind-Conducts, pure-Conducts, held, in_hand, gap-Conducts, try_slot-Conducts,
  give_back-Conducts, look-Conducts,
}
use r0rpc.Rpc.Goroutine.Places.{Keeps, Anywhere}
use r0rpc.Rpc.Poll.Places.{poll-Keeps}
use r0rpc.Rpc.Poll.{
  Wake, Pause, Slot, after_wake, after_turn, acquire_dispatch_slot, Popped, after_pause, after_look,
  poll_queue, Polled, PollSchedule, release_and_return, poll_result, poll_with, poll,
}

-- The slots that are held when `AcquireDispatchSlot` returns, and the jobs in hand behind `Pop`.
abbrev pub slots_of : Slot → ℕ
slots_of (Slot.slot p) = 1
slots_of _ = 0

abbrev pub none_of {ℓ} : {A : Type ℓ} → A → List Job
none_of a = []

abbrev pub jobs_of : Popped → List Job
jobs_of (Popped.job j) = j ∷ []
jobs_of _ = []

abbrev pub one_of {ℓ} : {A : Type ℓ} → A → ℕ
one_of a = 1

abbrev pub Slotted : String → Proc Slot → Type 0
Slotted c m = Conducts c 0 [] slots_of none_of m

turned :
    (c : String) (rest : Proc Slot)
    → Slotted c rest
    → Slotted c (try_slot c >>= λ t. after_turn t rest)
turned c rest r = bind-Conducts (try_slot c) _ (try_slot-Conducts c) go
  where
    go : (t : Turn) → Conducts c (held t) [] slots_of none_of (after_turn t rest)
    go (Turn.acquired p) = pure-Conducts slots_of none_of (Slot.slot p)
    go Turn.gone = pure-Conducts slots_of none_of _
    go (Turn.wait n) = r

woken : {c : String} (w : Wake) (rest : Proc Slot) → Slotted c rest → Slotted c (after_wake w rest)
woken Wake.signalled rest r = r
woken Wake.timed_out rest r = pure-Conducts slots_of none_of _
woken (Wake.context_done e) rest r = pure-Conducts slots_of none_of _

pub acquire-Conducts :
    (c : String) (pauses : List Pause) → Slotted c (acquire_dispatch_slot c pauses)
unfolding acquire_dispatch_slot
acquire-Conducts c [] = turned c _ (pure-Conducts slots_of none_of Slot.waiting)
acquire-Conducts c (pause ∷ pauses) = turned c _ (
    bind-Conducts (gap pause.meanwhile) _ (gap-Conducts 0 [] _)
      λ _. woken pause.wake _ (acquire-Conducts c pauses))

abbrev pub Looked : String → Proc Popped → Type 0
Looked c m = Conducts c 1 [] one_of jobs_of m

looked :
    {c : String} (p now : ℕ) (rest : Proc Popped)
    → Looked c rest
    → Looked c (look p now >>= λ found. after_look found rest)
looked {c} p now rest r = bind-Conducts (look p now) _ (look-Conducts 1 p now) go
  where
    go : (o : Option Job) → Conducts c 1 (in_hand o) one_of jobs_of (after_look o rest)
    go none = r
    go (some j) = pure-Conducts one_of jobs_of (Popped.job j)

paused :
    {c : String} (timer : Bool) (w : Wake) (rest : Proc Popped)
    → Looked c rest
    → Looked c (after_pause timer w rest)
paused timer Wake.signalled rest r = r
paused true Wake.timed_out rest r = pure-Conducts one_of jobs_of Popped.nothing
paused false Wake.timed_out rest r = pure-Conducts one_of jobs_of Popped.waiting
paused timer (Wake.context_done e) rest r = pure-Conducts one_of jobs_of (Popped.no_job e)

pub poll_queue-Conducts :
    {c : String} (timer : Bool) (p now : ℕ) (pauses : List Pause)
    → Looked c (poll_queue timer p now pauses)
unfolding poll_queue
poll_queue-Conducts timer p now [] = looked p now _ (pure-Conducts one_of jobs_of Popped.waiting)
poll_queue-Conducts timer p now (pause ∷ pauses) = looked p now _ (
    bind-Conducts (gap pause.meanwhile) _ (gap-Conducts 1 [] _)
      λ _. paused timer pause.wake _ (poll_queue-Conducts timer p pause.now pauses))

-- The slots and the jobs that the caller of `Poll` has: those of a blocked call are the goroutine's.
abbrev pub slots_polled : Polled → ℕ
slots_polled (Polled.job j) = 1
slots_polled Polled.waiting_for_job = 1
slots_polled _ = 0

abbrev pub jobs_polled : Polled → List Job
jobs_polled (Polled.job j) = j ∷ []
jobs_polled _ = []

abbrev Polls : String → ℕ → List Job → Proc Polled → Type 0
Polls c b x m = Conducts c b x slots_polled jobs_polled m

released :
    (c : String) (s : PollSchedule) (r : Polled)
    → slots_polled r ≡ 0
    → jobs_polled r ≡ []
    → Polls c 1 [] (release_and_return c s r)
released c s r e f = bind-Conducts (gap s.before_release) _ (gap-Conducts 1 [] _) λ _.
    bind-Conducts (give_back c) _ (give_back-Conducts [] c) λ _.
      subst (λ n. Polls c n [] (pure r)) e
        (subst (λ x. Polls c (slots_polled r) x (pure r)) f
          (pure-Conducts slots_polled jobs_polled r))

accounts :
    (timer : Bool) (c : String) (s : PollSchedule)
    → Conducts c 0 [] slots_polled jobs_polled (poll timer c s)
unfolding poll
accounts timer c s =
    bind-Conducts (acquire_dispatch_slot c s.before_slot) _ (acquire-Conducts c s.before_slot)
      with_slot
  where
    with_job : (found : Popped) → Polls c 1 (jobs_of found) (poll_result c s found)
    with_job (Popped.job j) = pure-Conducts slots_polled jobs_polled (Polled.job j)
    with_job Popped.nothing = released c s _ refl refl
    with_job Popped.waiting = pure-Conducts slots_polled jobs_polled Polled.waiting_for_job
    with_job (Popped.no_job e) = released c s _ refl refl

    with_slot : (found : Slot) → Polls c (slots_of found) [] (poll_with timer c s found)
    with_slot (Slot.slot p) = bind-Conducts (gap s.before_look) _ (gap-Conducts 1 [] _) λ _.
        bind-Conducts (poll_queue timer p s.looked_at s.before_job) _
          (poll_queue-Conducts timer p s.looked_at s.before_job) with_job
    with_slot (Slot.no_slot e) = pure-Conducts slots_polled jobs_polled _
    with_slot Slot.waiting = pure-Conducts slots_polled jobs_polled _

-- However the other goroutines interleave with it, what `Poll` does for a client is a run of the hub. The
-- slots that it takes and gives back are all of that client, and it looks only into the queue of the
-- session whose slot it took last. It takes a slot and a job and gives neither back if it returns a job;
-- otherwise it keeps no job, and no slot either unless it is still waiting for a job.
pub poll-Conducts :
    (timer : Bool) (c : String) (s : PollSchedule)
    → Conducts c 0 [] slots_polled jobs_polled (poll timer c s)
      × Keeps none Anywhere (poll timer c s)
poll-Conducts timer c s = (accounts timer c s, poll-Keeps timer c s)
