-- ===== src/Rpc/Ops.antt =====
-- internal/rpc/hub.go: the critical sections of all goroutines, in the order in which they get the
-- mutexes. Any interleaving of calls, polls and registrations is one such list.
pub mod Agreement
pub mod Limits
pub mod Moves
pub mod Channels
pub mod Once
use r0rpc.Prelude.{ℕ, String, ℤ, Option, List, [], ◌∷◌}
use r0rpc.Rpc.Job.{Job, JobResult}
use r0rpc.Rpc.State.{Hub}
use r0rpc.Rpc.Hub.{register, touch, unregister}
use r0rpc.Rpc.Dispatch.{
  pick_session, acquire_turn, release_dispatch_locked, push_pending, pop_pending,
}
use r0rpc.Rpc.Results.{
  make_channel, receive, store_waiter, drop_waiter, expire_waiter, submit_result,
}

pub data HubOp : Type 0 where
  registers : String → String → ℤ → String → ℤ → ℕ → HubOp
  touches : String → ℕ → HubOp
  unregisters : String → HubOp
  picks : String → String → HubOp
  makes : HubOp
  stores : String → String → ℕ → ℕ → HubOp
  drops : String → HubOp
  expires : String → ℕ → HubOp
  pushes : ℕ → ℕ → Option Job → HubOp
  pops : ℕ → ℕ → HubOp
  acquires : String → HubOp
  releases : String → HubOp
  submits : String → JobResult → ℕ → HubOp
  receives : ℕ → HubOp

unfoldable pub apply_op : Hub → HubOp → Hub
apply_op h (registers c g user platform max now) = (register h c g user platform max now).0
apply_op h (touches c now) = touch h c now
apply_op h (unregisters c) = unregister h c
apply_op h (picks g c) = (pick_session h g c).0
apply_op h makes = (make_channel h).0
apply_op h (stores id c ch now) = store_waiter h id c ch now
apply_op h (drops id) = drop_waiter h id
apply_op h (expires id now) = expire_waiter h id now
apply_op h (pushes p now job) = (push_pending h p now job).0
apply_op h (pops p now) = (pop_pending h p now).0
apply_op h (acquires c) = (acquire_turn h c).0
apply_op h (releases c) = release_dispatch_locked h c
apply_op h (submits c result now) = (submit_result h c result now).0
apply_op h (receives ch) = (receive h ch).0

unfoldable pub run_ops : Hub → List HubOp → Hub
run_ops h [] = h
run_ops h (op ∷ ops) = run_ops (apply_op h op) ops
