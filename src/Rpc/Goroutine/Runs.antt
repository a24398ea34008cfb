-- ===== src/Rpc/Goroutine/Runs.antt =====
-- internal/rpc/hub.go: the log of a program is a run of the hub, and its accounts of slots and jobs.
use r0rpc.Prelude.{ℕ, ◌≡◌, refl, String, Option, none, some, List, [], ◌∷◌, ◌++◌}
use r0rpc.Rpc.Job.{Job, HubError}
use r0rpc.Rpc.State.{Hub}
use r0rpc.Rpc.Dispatch.{Turn, acquire_turn, release_dispatch_locked, pop_pending, requeue}
use r0rpc.Rpc.Ops.{HubOp, run_ops}
use r0rpc.Rpc.Goroutine.{
  Event, Proc, ◌>>=◌, pure, gap, turn_event, pop_event, try_slot, give_back, look, send, put_back,
}

-- What an event says of the hub before and after it.
pub data Step (h : Hub) : Event → Hub → Type 0 where
  others : (ops : List HubOp) → Step h (Event.others ops) (run_ops h ops)
  took :
      (c : String) (p : ℕ)
      → (acquire_turn h c).1 ≡ Turn.acquired p
      → Step h (Event.took c p) (acquire_turn h c).0
  got_no_slot :
      (c : String) (t : Turn)
      → (acquire_turn h c).1 ≡ t
      → Step h (Event.got_no_slot c t) (acquire_turn h c).0
  gave_back : (c : String) → Step h (Event.gave_back c) (release_dispatch_locked h c)
  popped :
      (p now : ℕ) (job : Job)
      → (pop_pending h p now).1 ≡ some job
      → Step h (Event.popped p now job) (pop_pending h p now).0
  found_none :
      (p now : ℕ)
      → (pop_pending h p now).1 ≡ none
      → Step h (Event.found_none p now) (pop_pending h p now).0
  sent : (job : Job) → Step h (Event.sent job) h
  requeued :
      (c : String) (ops : List HubOp) (now : ℕ) (job : Job) (e : Option HubError)
      → (requeue (λ g. run_ops g ops) h c now (some job)).1 ≡ e
      → Step h (Event.requeued c ops now job e) (requeue (λ g. run_ops g ops) h c now (some job)).0

pub data Run : Hub → List Event → Hub → Type 0 where
  done : (h : Hub) → Run h [] h
  next : {h k l : Hub} {e : Event} {es : List Event} → Step h e k → Run k es l → Run h (e ∷ es) l

pub Run-append : {h k l : Hub} {es fs : List Event} → Run h es k → Run k fs l → Run h (es ++ fs) l
Run-append (done h) r = r
Run-append (next s q) r = next s (Run-append q r)

-- Every log of the program is a run of the hub, from where it starts to where it ends.
abbrev pub IsRun : {A : Type 0} → Proc A → Type 0
IsRun m = (h : Hub) → Run h (m h).log (m h).hub

pub pure-IsRun : {A : Type 0} (a : A) → IsRun (pure a)
pure-IsRun a h = done h

pub bind-IsRun :
    {A B : Type 0} (m : Proc A) (f : A → Proc B)
    → IsRun m
    → ((a : A) → IsRun (f a))
    → IsRun (m >>= f)
bind-IsRun m f r s h = Run-append (r h) (s (m h).value (m h).hub)

pub gap-IsRun : (ops : List HubOp) → IsRun (gap ops)
gap-IsRun ops h = next (others ops) (done _)

pub try_slot-IsRun : (c : String) → IsRun (try_slot c)
unfolding try_slot
try_slot-IsRun c h = go (acquire_turn h c).1 refl
  where
    go : (t : Turn) → (acquire_turn h c).1 ≡ t → Run h (turn_event c t ∷ []) (acquire_turn h c).0
    go (Turn.acquired p) e = next (took c p e) (done _)
    go Turn.gone e = next (got_no_slot c Turn.gone e) (done _)
    go (Turn.wait n) e = next (got_no_slot c (Turn.wait n) e) (done _)

pub look-IsRun : (p now : ℕ) → IsRun (look p now)
unfolding look
look-IsRun p now h = go (pop_pending h p now).1 refl
  where
    go :
        (o : Option Job)
        → (pop_pending h p now).1 ≡ o
        → Run h (pop_event p now o ∷ []) (pop_pending h p now).0
    go (some job) e = next (popped p now job e) (done _)
    go none e = next (found_none p now e) (done _)

pub give_back-IsRun : (c : String) → IsRun (give_back c)
unfolding give_back
give_back-IsRun c h = next (gave_back c) (done _)

pub send-IsRun : (job : Job) → IsRun (send job)
unfolding send
send-IsRun job h = next (sent job) (done _)

pub put_back-IsRun :
    (c : String) (ops : List HubOp) (now : ℕ) (job : Job) → IsRun (put_back c ops now job)
unfolding put_back
put_back-IsRun c ops now job h = next (requeued c ops now job _ refl) (done _)
