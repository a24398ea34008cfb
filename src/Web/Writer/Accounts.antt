-- ===== src/Web/Writer/Accounts.antt =====
-- internal/web/client_ws.go, `clientWSWriterLoop`: no slot leaks and no job vanishes in the loop.
use r0rpc.Prelude.{none, ℕ, ◌≡◌, refl, subst, String, Bool, true, false, List, [], ◌∷◌, by_if}
use r0rpc.Rpc.Job.{Job, HubError, context_error}
use r0rpc.Rpc.Goroutine.{Proc, pure, gap, give_back, send, put_back}
use r0rpc.Rpc.Goroutine.Conduct.{
  Conducts, bind-Conducts, pure-Conducts, gap-Conducts, give_back-Conducts, send-Conducts,
  put_back-Conducts,
}
use r0rpc.Rpc.Goroutine.Places.{Keeps, Anywhere}
use r0rpc.Web.Writer.Places.{writer_loop-Free}
use r0rpc.Rpc.Poll.{Slot, acquire_dispatch_slot, Popped, poll_queue}
use r0rpc.Rpc.Poll.Slots.{slots_of, none_of, jobs_of, acquire-Conducts, poll_queue-Conducts}
use r0rpc.Web.Writer.{
  WriterTurn, WriterEnd, end_of, return_job, write_job, after_pop, after_slot, writer_loop,
}

-- The slots that the loop has when it ends: the one of a loop that still waits for a job.
abbrev pub slots_at : WriterEnd → ℕ
slots_at WriterEnd.waiting_for_job = 1
slots_at _ = 0

abbrev Writes : String → ℕ → List Job → Proc WriterEnd → Type 0
Writes c b x m = Conducts c b x slots_at none_of m

ended : {c : String} (r : WriterEnd) → Writes c (slots_at r) [] (pure r)
ended r = pure-Conducts slots_at none_of r

return_job-Writes :
    (c : String) (job : Job) (t : WriterTurn) (r : WriterEnd)
    → slots_at r ≡ 0
    → Writes c 1 (job ∷ []) (return_job c job t r)
unfolding return_job
return_job-Writes c job t r e =
    bind-Conducts (gap t.before_release) _ (gap-Conducts 1 (job ∷ []) _) λ _.
      bind-Conducts (give_back c) _ (give_back-Conducts (job ∷ []) c) λ _.
        bind-Conducts (gap t.before_requeue) _ (gap-Conducts 0 (job ∷ []) _) λ _.
          bind-Conducts (put_back c t.before_push t.requeued_at job) _
            (put_back-Conducts 0 c _ _ job) λ _. subst (λ n. Writes c n [] (pure r)) e (ended r)

module _ (c : String) (t : WriterTurn) (rest : Proc WriterEnd) (w : Writes c 0 [] rest) where
  write_job-Writes : (job : Job) → Writes c 1 (job ∷ []) (write_job c job t rest)
  unfolding write_job
  write_job-Writes job =
      by_if (Writes c 1 (job ∷ [])) t.done_with_job (λ _. return_job-Writes c job t _ refl)
        λ _.
          by_if (Writes c 1 (job ∷ [])) t.write_succeeds
            (λ _. bind-Conducts (send job) _ (send-Conducts job) λ _. w)
            λ _. return_job-Writes c job t _ refl

  quits : (done : Bool) (e : HubError) → Writes c 0 [] (pure (end_of done e))
  quits true e = ended WriterEnd.stopped
  quits false e = ended (WriterEnd.failed e)

  after_pop-Writes : (found : Popped) → Writes c 1 (jobs_of found) (after_pop c t rest found)
  unfolding after_pop
  after_pop-Writes (Popped.job job) = write_job-Writes job
  after_pop-Writes Popped.nothing =
      bind-Conducts (gap t.before_release) _ (gap-Conducts 1 [] _)
        λ _. bind-Conducts (give_back c) _ (give_back-Conducts [] c) λ _. w
  after_pop-Writes Popped.waiting = ended WriterEnd.waiting_for_job
  after_pop-Writes (Popped.no_job e) =
      bind-Conducts (gap t.before_release) _ (gap-Conducts 1 [] _) λ _.
        bind-Conducts (give_back c) _ (give_back-Conducts [] c)
          λ _. quits t.done_on_error (context_error e)

  after_slot-Writes : (found : Slot) → Writes c (slots_of found) [] (after_slot c t rest found)
  unfolding after_slot
  after_slot-Writes (Slot.slot p) = bind-Conducts (gap t.before_look) _ (gap-Conducts 1 [] _) λ _.
      bind-Conducts (poll_queue false p t.looked_at t.before_job) _
        (poll_queue-Conducts false p t.looked_at t.before_job) after_pop-Writes
  after_slot-Writes (Slot.no_slot e) = quits t.done_on_error e
  after_slot-Writes Slot.waiting = ended WriterEnd.waiting_for_slot

accounts :
    (c : String) (turns : List WriterTurn) → Conducts c 0 [] slots_at none_of (writer_loop c turns)
unfolding writer_loop
accounts c [] = ended WriterEnd.running
accounts c (t ∷ turns) =
    let w = accounts c turns in
    by_if (Writes c 0 []) t.done_first (λ _. ended WriterEnd.stopped)
      λ _.
        bind-Conducts (acquire_dispatch_slot c t.before_slot) _ (acquire-Conducts c t.before_slot)
          (after_slot-Writes c t (writer_loop c turns) w)

-- However the other goroutines interleave with it, between the lookup and the push of `Requeue` too, and
-- whichever writes fail, what the loop does for a client is a run of the hub. Every job that it pops comes
-- from the queue of the session whose slot it took last, and is sent or handed to `Requeue` for that
-- client, in the order in which it pops them. Every slot is taken for that client and given back to it
-- or left to a job that is sent. While the loop waits for a job it has one slot more.
pub writer_loop-Conducts :
    (c : String) (turns : List WriterTurn)
    → Conducts c 0 [] slots_at none_of (writer_loop c turns)
      × Keeps none Anywhere (writer_loop c turns)
writer_loop-Conducts c turns = (accounts c turns, writer_loop-Free c turns none)
