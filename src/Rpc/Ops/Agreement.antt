-- ===== src/Rpc/Ops/Agreement.antt =====
-- internal/rpc/hub.go: the maps of the hub agree after any interleaving of its operations.
use r0rpc.Prelude.{refl, ℤ, List, [], ◌∷◌}
use r0rpc.Rpc.State.{Hub, new_hub}
use r0rpc.Rpc.Hub.Registry.{IsRegistry}
use r0rpc.Rpc.Hub.Registration.{
  new_hub-IsRegistry, register-IsRegistry, touch-IsRegistry, unregister-IsRegistry,
}
use r0rpc.Rpc.Dispatch.Fairness.{pick_session-IsRegistry}
use r0rpc.Rpc.Dispatch.Slots.{
  push_pending-IsRegistry, pop_pending-IsRegistry, acquire-IsRegistry, release-IsRegistry,
}
use r0rpc.Rpc.Results.{cleanup_completed_locked, make_channel, store_waiter, drop_waiter}
use r0rpc.Rpc.Results.Frame.{IsRegistry-IsCallFree, receive-keeps, expire-keeps, submit-keeps}
use r0rpc.Rpc.Ops.{
  HubOp, apply_op, run_ops, registers, touches, unregisters, picks, makes, stores, drops, expires,
  pushes, pops, acquires, releases, submits, receives,
}

apply_op-IsRegistry : (h : Hub) (op : HubOp) → IsRegistry h → IsRegistry (apply_op h op)
unfolding apply_op make_channel store_waiter drop_waiter cleanup_completed_locked
apply_op-IsRegistry h (registers c g user platform max now) v =
    register-IsRegistry h c g user platform max now v
apply_op-IsRegistry h (touches c now) v = touch-IsRegistry h c now v
apply_op-IsRegistry h (unregisters c) v = unregister-IsRegistry h c v
apply_op-IsRegistry h (picks g c) v = pick_session-IsRegistry h g c v
apply_op-IsRegistry h makes v = IsRegistry-IsCallFree.calls h _ refl refl refl refl refl refl refl v
apply_op-IsRegistry h (stores id c ch now) v =
    IsRegistry-IsCallFree.calls h _ refl refl refl refl refl refl refl v
apply_op-IsRegistry h (drops id) v =
    IsRegistry-IsCallFree.calls h _ refl refl refl refl refl refl refl v
apply_op-IsRegistry h (expires id now) v = expire-keeps IsRegistry-IsCallFree h id now v
apply_op-IsRegistry h (pushes p now job) v = push_pending-IsRegistry h p now job v
apply_op-IsRegistry h (pops p now) v = pop_pending-IsRegistry h p now v
apply_op-IsRegistry h (acquires c) v = acquire-IsRegistry h c v
apply_op-IsRegistry h (releases c) v = release-IsRegistry h c v
apply_op-IsRegistry h (submits c result now) v = submit-keeps IsRegistry-IsCallFree h c result now v
apply_op-IsRegistry h (receives ch) v = receive-keeps IsRegistry-IsCallFree h ch v

run_ops-IsRegistry : (h : Hub) (ops : List HubOp) → IsRegistry h → IsRegistry (run_ops h ops)
unfolding run_ops
run_ops-IsRegistry h [] v = v
run_ops-IsRegistry h (op ∷ ops) v =
    run_ops-IsRegistry (apply_op h op) ops (apply_op-IsRegistry h op v)

-- After any interleaving of the operations on a new hub: every registered client's pointer leads to
-- its own session; the order of each group lists exactly the clients registered in it, each once;
-- the map of the group holds these clients with these pointers; and the group's cursor stands on one
-- of them or at the start.
pub hub_maps_agree :
    (pending_size max_in_flight : ℤ) (ops : List HubOp)
    → IsRegistry (run_ops (new_hub pending_size max_in_flight) ops)
hub_maps_agree a b ops = run_ops-IsRegistry (new_hub a b) ops (new_hub-IsRegistry a b)
