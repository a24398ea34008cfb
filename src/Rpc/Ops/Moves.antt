-- ===== src/Rpc/Ops/Moves.antt =====
-- internal/rpc/hub.go: what an operation does to the calls that wait and to their channels, as a relation
-- between the hub before and the hub after.
use r0rpc.Prelude.{◌≡◌, refl, ◌⊎◌, String, none, [], ◌∷◌, ◌++◌, string_eq}
use r0rpc.Prelude.Map.{insert, lookup-delete}
use r0rpc.Rpc.State.{Hub}
use r0rpc.Rpc.Hub.Frame.{SameCalls, register-SameCalls, touch-SameCalls, unregister-SameCalls}
use r0rpc.Rpc.Dispatch.Frame.{
  pick_keeps, acquire-SameCalls, release-SameCalls, push_pending-SameCalls, pop_pending-SameCalls,
}
use r0rpc.Rpc.Results.{cleanup_completed_locked, make_channel, store_waiter, drop_waiter}
use r0rpc.Rpc.Results.Mail.{
  SameMail, Ends, Delivers, Takes, expire-Ends, receive-Takes, submit-Delivers,
}
use r0rpc.Rpc.Ops.{
  HubOp, apply_op, registers, touches, unregisters, picks, makes, stores, drops, expires, pushes,
  pops, acquires, releases, submits, receives,
}

abbrev pub Moves : HubOp → Hub → Hub → Type 0
Moves makes h k = (k.waiters ≡ h.waiters) × (k.channels ≡ h.channels ++ none ∷ [])
Moves (stores id c ch now) h k =
    (k.waiters ≡ insert id (record { client_id = c; result_ch = ch }) h.waiters)
    × (k.channels ≡ h.channels)
Moves (drops id) h k = Ends id h k
Moves (expires id now) h k = Ends id h k
Moves (submits c result now) h k = SameMail h k ⊎ Delivers c result h k
Moves (receives ch) h k = Takes ch h k
Moves _ h k = SameMail h k

quiet : {h k : Hub} → SameCalls h k → SameMail h k
quiet same = record { waiters = same.waiters; channels = same.channels }

pub pick-SameMail : (h : Hub) (g c : String) → SameMail h (apply_op h (picks g c))
unfolding apply_op
pick-SameMail h g c =
    pick_keeps (SameMail h) h (λ m. record { waiters = refl; channels = refl })
      (record { waiters = refl; channels = refl }) g c

pub apply_op-Moves : (h : Hub) (op : HubOp) → Moves op h (apply_op h op)
unfolding apply_op make_channel store_waiter drop_waiter cleanup_completed_locked
apply_op-Moves h (registers c g user platform max now) =
    quiet (register-SameCalls h c g user platform max now)
apply_op-Moves h (touches c now) = quiet (touch-SameCalls h c now)
apply_op-Moves h (unregisters c) = quiet (unregister-SameCalls h c)
apply_op-Moves h (picks g c) = pick-SameMail h g c
apply_op-Moves h makes = (refl, refl)
apply_op-Moves h (stores id c ch now) = (refl, refl)
apply_op-Moves h (drops id) = record {
  waiters = λ j. lookup-delete id j h.waiters;
  channels = refl;
}
apply_op-Moves h (expires id now) = expire-Ends h id now
apply_op-Moves h (pushes p now job) = quiet (push_pending-SameCalls h p now job)
apply_op-Moves h (pops p now) = quiet (pop_pending-SameCalls h p now)
apply_op-Moves h (acquires c) = quiet (acquire-SameCalls h c)
apply_op-Moves h (releases c) = quiet (release-SameCalls h c)
apply_op-Moves h (submits c result now) = submit-Delivers h c result now
apply_op-Moves h (receives ch) = receive-Takes h ch
