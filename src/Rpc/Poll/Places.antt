-- ===== src/Rpc/Poll/Places.antt =====
-- internal/rpc/hub.go, `Poll`: a job comes from the queue of the session whose slot is held.
use r0rpc.Prelude.{
  ℕ, ◌≡◌, sym, ◌∙◌, subst, String, Bool, true, false, Option, none, some, List, [], ◌∷◌,
}
use r0rpc.Rpc.Job.{Job}
use r0rpc.Rpc.Dispatch.{Turn}
use r0rpc.Rpc.Goroutine.{Proc, ◌>>=◌, gap, try_slot, give_back, look}
use r0rpc.Rpc.Goroutine.Places.{
  Keeps, Anywhere, PlaceOf, bind-Keeps, pure-Keeps, gap-Keeps, give_back-Keeps, try_slot-Keeps,
  look-Keeps,
}
use r0rpc.Rpc.Poll.{
  Wake, Pause, Slot, after_wake, after_turn, acquire_dispatch_slot, Popped, after_pause, after_look,
  poll_queue, Polled, PollSchedule, release_and_return, poll_result, poll_with, poll,
}

-- A slot that `AcquireDispatchSlot` returns is of the place that it names.
abbrev pub SlotAt : Slot → Option ℕ → Type 0
SlotAt (Slot.slot p) at = at ≡ some p
SlotAt _ at = Unit

turned :
    (at : Option ℕ) (c : String) (rest : Proc Slot)
    → ((to : Option ℕ) → Keeps to SlotAt rest)
    → Keeps at SlotAt (try_slot c >>= λ t. after_turn t rest)
turned at c rest r = bind-Keeps (try_slot c) _ (try_slot-Keeps at c) go
  where
    go : (t : Turn) (to : Option ℕ) → PlaceOf t to → Keeps to SlotAt (after_turn t rest)
    go (Turn.acquired p) to e = pure-Keeps SlotAt (Slot.slot p) e
    go Turn.gone to e = pure-Keeps SlotAt _ tt
    go (Turn.wait n) to e = r to

woken :
    (at : Option ℕ) (w : Wake) (rest : Proc Slot)
    → Keeps at SlotAt rest
    → Keeps at SlotAt (after_wake w rest)
woken at Wake.signalled rest r = r
woken at Wake.timed_out rest r = pure-Keeps SlotAt _ tt
woken at (Wake.context_done e) rest r = pure-Keeps SlotAt _ tt

pub acquire-Keeps :
    (at : Option ℕ) (c : String) (pauses : List Pause)
    → Keeps at SlotAt (acquire_dispatch_slot c pauses)
unfolding acquire_dispatch_slot
acquire-Keeps at c [] = turned at c _ λ to. pure-Keeps SlotAt Slot.waiting tt
acquire-Keeps at c (pause ∷ pauses) = turned at c _ λ to.
    bind-Keeps (gap pause.meanwhile) _ (gap-Keeps to pause.meanwhile)
      λ _ on is. woken on pause.wake _ (acquire-Keeps on c pauses)

looked :
    (p now : ℕ) (rest : Proc Popped)
    → Keeps (some p) Anywhere rest
    → Keeps (some p) Anywhere (look p now >>= λ found. after_look found rest)
looked p now rest r = bind-Keeps (look p now) _ (look-Keeps p now) go
  where
    go : (o : Option Job) (to : Option ℕ) → to ≡ some p → Keeps to Anywhere (after_look o rest)
    go none to e = subst (λ x. Keeps x Anywhere rest) (sym e) r
    go (some j) to e = pure-Keeps Anywhere _ tt

paused :
    (at : Option ℕ) (timer : Bool) (w : Wake) (rest : Proc Popped)
    → Keeps at Anywhere rest
    → Keeps at Anywhere (after_pause timer w rest)
paused at timer Wake.signalled rest r = r
paused at true Wake.timed_out rest r = pure-Keeps Anywhere _ tt
paused at false Wake.timed_out rest r = pure-Keeps Anywhere _ tt
paused at timer (Wake.context_done e) rest r = pure-Keeps Anywhere _ tt

pub poll_queue-Keeps :
    (timer : Bool) (p now : ℕ) (pauses : List Pause)
    → Keeps (some p) Anywhere (poll_queue timer p now pauses)
unfolding poll_queue
poll_queue-Keeps timer p now [] = looked p now _ (pure-Keeps Anywhere Popped.waiting tt)
poll_queue-Keeps timer p now (pause ∷ pauses) = looked p now _ (
    bind-Keeps (gap pause.meanwhile) _ (gap-Keeps (some p) pause.meanwhile) λ _ on is.
      subst
        (λ x. Keeps x Anywhere (after_pause timer pause.wake (poll_queue timer p pause.now pauses)))
        (sym is) (paused (some p) timer pause.wake _ (poll_queue-Keeps timer p pause.now pauses)))

released :
    (at : Option ℕ) (c : String) (s : PollSchedule) (r : Polled)
    → Keeps at Anywhere (release_and_return c s r)
released at c s r =
    bind-Keeps (gap s.before_release) _ (gap-Keeps at _)
      λ _ to _. bind-Keeps (give_back c) _ (give_back-Keeps to c) λ _ on _. pure-Keeps Anywhere r tt

pub poll-Keeps :
    (timer : Bool) (c : String) (s : PollSchedule) → Keeps none Anywhere (poll timer c s)
unfolding poll
poll-Keeps timer c s =
    bind-Keeps (acquire_dispatch_slot c s.before_slot) _ (acquire-Keeps none c s.before_slot)
      with_slot
  where
    with_job :
        (found : Popped) (to : Option ℕ) → Unit {0} → Keeps to Anywhere (poll_result c s found)
    with_job (Popped.job j) to _ = pure-Keeps Anywhere _ tt
    with_job Popped.nothing to _ = released to c s _
    with_job Popped.waiting to _ = pure-Keeps Anywhere _ tt
    with_job (Popped.no_job e) to _ = released to c s _

    with_slot :
        (found : Slot) (to : Option ℕ)
        → SlotAt found to
        → Keeps to Anywhere (poll_with timer c s found)
    with_slot (Slot.slot p) to is = bind-Keeps (gap s.before_look) _ (gap-Keeps to _) λ _ on e.
        subst
          (λ x. Keeps x Anywhere (poll_queue timer p s.looked_at s.before_job >>= poll_result c s))
          (sym (e ∙ is))
          (bind-Keeps (poll_queue timer p s.looked_at s.before_job) _
            (poll_queue-Keeps timer p s.looked_at s.before_job) with_job)
    with_slot (Slot.no_slot e) to is = pure-Keeps Anywhere _ tt
    with_slot Slot.waiting to is = pure-Keeps Anywhere _ tt
