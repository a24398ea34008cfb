-- ===== src/Web/Writer.antt =====
-- internal/web/client_ws.go, `clientWSWriterLoop`: the loop that sends jobs to a device. What the context
-- reports, what the other goroutines do and whether a write succeeds are in the schedule of a turn;
-- with no turn left the loop is still running.
pub mod Accounts
pub mod Places
use r0rpc.Prelude.{ℕ, String, Bool, true, false, List, [], ◌∷◌, if◌then◌else◌}
use r0rpc.Rpc.Job.{Job, HubError, context_error}
use r0rpc.Rpc.Ops.{HubOp}
use r0rpc.Rpc.Goroutine.{Proc, ◌>>=◌, ◌>>◌, pure, gap, give_back, send, put_back}
use r0rpc.Rpc.Poll.{Pause, Slot, acquire_dispatch_slot, Popped, poll_queue}

pub record WriterTurn : Type 0 where
  -- `ctx.Err() != nil` at the head of the loop, behind an error, and behind the pop
  pub done_first : Bool
  pub before_slot : List Pause
  pub done_on_error : Bool
  pub before_look : List HubOp
  pub looked_at : ℕ
  pub before_job : List Pause
  pub done_with_job : Bool
  pub write_succeeds : Bool
  pub before_release : List HubOp
  pub before_requeue : List HubOp
  pub before_push : List HubOp
  pub requeued_at : ℕ

-- How the loop ends: with nil, an error of the hub or an error of the connection.
pub data WriterEnd : Type 0 where
  stopped write_failed running waiting_for_slot waiting_for_job : WriterEnd
  failed : HubError → WriterEnd

abbrev pub end_of : Bool → HubError → WriterEnd
end_of done e = if done then WriterEnd.stopped else WriterEnd.failed e

-- `ReleaseDispatchSlot`, then `Requeue`.
unfoldable pub return_job : String → Job → WriterTurn → WriterEnd → Proc WriterEnd
return_job c job t r = do
  gap t.before_release
  give_back c
  gap t.before_requeue
  put_back c t.before_push t.requeued_at job
  pure r

-- The part behind a job that was popped; `rest` is the loop from there on.
unfoldable pub write_job : String → Job → WriterTurn → Proc WriterEnd → Proc WriterEnd
unfolding return_job
write_job c job t rest =
    if t.done_with_job
    then return_job c job t WriterEnd.stopped
    else if t.write_succeeds
    then send job >> rest
    else return_job c job t WriterEnd.write_failed

unfoldable pub after_pop : String → WriterTurn → Proc WriterEnd → Popped → Proc WriterEnd
unfolding write_job
after_pop c t rest (Popped.job job) = write_job c job t rest
after_pop c t rest Popped.nothing = do gap t.before_release; give_back c; rest
after_pop c t rest Popped.waiting = pure WriterEnd.waiting_for_job
after_pop c t rest (Popped.no_job e) = do
  gap t.before_release
  give_back c
  pure (end_of t.done_on_error (context_error e))

unfoldable pub after_slot : String → WriterTurn → Proc WriterEnd → Slot → Proc WriterEnd
unfolding after_pop
after_slot c t rest (Slot.no_slot e) = pure (end_of t.done_on_error e)
after_slot c t rest Slot.waiting = pure WriterEnd.waiting_for_slot
after_slot c t rest (Slot.slot p) = do
  gap t.before_look
  found ← poll_queue false p t.looked_at t.before_job
  after_pop c t rest found

unfoldable pub writer_loop : String → List WriterTurn → Proc WriterEnd
unfolding after_slot
writer_loop c [] = pure WriterEnd.running
writer_loop c (t ∷ turns) =
    let rest = writer_loop c turns in
    if t.done_first
    then pure WriterEnd.stopped
    else (acquire_dispatch_slot c t.before_slot >>= after_slot c t rest)
