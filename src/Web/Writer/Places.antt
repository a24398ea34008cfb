-- ===== src/Web/Writer/Places.antt =====
-- internal/web/client_ws.go, `clientWSWriterLoop`: every job comes from the queue of the session whose slot
-- the loop took.
use r0rpc.Prelude.{ℕ, sym, ◌∙◌, subst, String, false, Option, List, [], ◌∷◌, by_if}
use r0rpc.Rpc.Job.{Job, context_error}
use r0rpc.Rpc.Goroutine.{Proc, ◌>>=◌, gap, give_back, send, put_back}
use r0rpc.Rpc.Goroutine.Places.{
  Keeps, Anywhere, bind-Keeps, pure-Keeps, gap-Keeps, give_back-Keeps, send-Keeps, put_back-Keeps,
}
use r0rpc.Rpc.Poll.{Slot, acquire_dispatch_slot, Popped, poll_queue}
use r0rpc.Rpc.Poll.Places.{SlotAt, acquire-Keeps, poll_queue-Keeps}
use r0rpc.Web.Writer.{
  WriterTurn, WriterEnd, end_of, return_job, write_job, after_pop, after_slot, writer_loop,
}

-- From any place.
abbrev Free : Proc WriterEnd → Type 0
Free m = (at : Option ℕ) → Keeps at Anywhere m

return_job-Free :
    (c : String) (job : Job) (t : WriterTurn) (r : WriterEnd) → Free (return_job c job t r)
unfolding return_job
return_job-Free c job t r at = bind-Keeps (gap t.before_release) _ (gap-Keeps at _) λ _ to _.
    bind-Keeps (give_back c) _ (give_back-Keeps to c) λ _ on _.
      bind-Keeps (gap t.before_requeue) _ (gap-Keeps on _) λ _ by _.
        bind-Keeps (put_back c t.before_push t.requeued_at job) _ (put_back-Keeps by c _ _ job)
          λ _ up _. pure-Keeps Anywhere r tt

module _ (c : String) (t : WriterTurn) (rest : Proc WriterEnd) (w : Free rest) where
  write_job-Free : (job : Job) → Free (write_job c job t rest)
  unfolding write_job
  write_job-Free job at =
      by_if (Keeps at Anywhere) t.done_with_job (λ _. return_job-Free c job t _ at)
        λ _.
          by_if (Keeps at Anywhere) t.write_succeeds
            (λ _. bind-Keeps (send job) _ (send-Keeps at job) λ _ to _. w to)
            λ _. return_job-Free c job t _ at

  after_pop-Free : (found : Popped) → Free (after_pop c t rest found)
  unfolding after_pop
  after_pop-Free (Popped.job job) at = write_job-Free job at
  after_pop-Free Popped.nothing at =
      bind-Keeps (gap t.before_release) _ (gap-Keeps at _)
        λ _ to _. bind-Keeps (give_back c) _ (give_back-Keeps to c) λ _ on _. w on
  after_pop-Free Popped.waiting at = pure-Keeps Anywhere _ tt
  after_pop-Free (Popped.no_job e) at =
      bind-Keeps (gap t.before_release) _ (gap-Keeps at _) λ _ to _.
        bind-Keeps (give_back c) _ (give_back-Keeps to c)
          λ _ on _. pure-Keeps Anywhere (end_of t.done_on_error (context_error e)) tt

  after_slot-Keeps :
      (found : Slot) (at : Option ℕ)
      → SlotAt found at
      → Keeps at Anywhere (after_slot c t rest found)
  unfolding after_slot
  after_slot-Keeps (Slot.slot p) at is = bind-Keeps (gap t.before_look) _ (gap-Keeps at _) λ _ to e.
      subst
        (λ x. Keeps x Anywhere (poll_queue false p t.looked_at t.before_job >>= after_pop c t rest))
        (sym (e ∙ is))
        (bind-Keeps (poll_queue false p t.looked_at t.before_job) _
          (poll_queue-Keeps false p t.looked_at t.before_job) λ found on _. after_pop-Free found on)
  after_slot-Keeps (Slot.no_slot e) at is = pure-Keeps Anywhere _ tt
  after_slot-Keeps Slot.waiting at is = pure-Keeps Anywhere _ tt

pub writer_loop-Free : (c : String) (turns : List WriterTurn) → Free (writer_loop c turns)
unfolding writer_loop
writer_loop-Free c [] at = pure-Keeps Anywhere _ tt
writer_loop-Free c (t ∷ turns) at =
    by_if (Keeps at Anywhere) t.done_first (λ _. pure-Keeps Anywhere _ tt)
      λ _.
        bind-Keeps (acquire_dispatch_slot c t.before_slot) _ (acquire-Keeps at c t.before_slot)
          (after_slot-Keeps c t (writer_loop c turns) (writer_loop-Free c turns))
