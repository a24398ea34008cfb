-- ===== src/Rpc/Ops/Limits.antt =====
-- internal/rpc/hub.go: queues and calls in flight stay within their limits after any interleaving.
use r0rpc.Prelude.{ℕ, max, ◌≡◌, refl, ◌∙◌, subst, String, ℤ, pos, List, [], ◌∷◌, string_eq}
use r0rpc.Rpc.Queue.{queue_limit}
use r0rpc.Rpc.State.{Hub, new_hub}
use r0rpc.Rpc.Hub.Frame.{SameCalls, register-SameCalls, touch-SameCalls, unregister-SameCalls}
use r0rpc.Rpc.Hub.Bounds.{Sound, flight_cap, register-AllSound, touch-Sound, unregister-Sound}
use r0rpc.Rpc.Hub.{register}
use r0rpc.Rpc.Dispatch.Frame.{
  pick_keeps, acquire-SameCalls, release-SameCalls, push_pending-SameCalls, pop_pending-SameCalls,
}
use r0rpc.Rpc.Dispatch.Slots.{push_pending-Sound, pop_pending-Sound, acquire-Sound, release-Sound}
use r0rpc.Rpc.Results.{cleanup_completed_locked, make_channel, store_waiter, drop_waiter}
use r0rpc.Rpc.Results.Frame.{IsCallFree, receive-keeps, expire-keeps, submit-keeps}
use r0rpc.Rpc.Ops.{
  HubOp, apply_op, run_ops, registers, touches, unregisters, picks, makes, stores, drops, expires,
  pushes, pops, acquires, releases, submits, receives,
}

-- The limits of a hub, which no operation changes.
record Limited (size default : ℕ) (h : Hub) : Type 0 where
  size_kept : h.pending_size ≡ size
  default_kept : h.default_max_in_flight ≡ default
  sound : Sound (max 1024 default) (queue_limit (pos size)) h

changed :
    (size default : ℕ) (h k : Hub)
    → SameCalls h k
    → Sound (max 1024 default) (queue_limit (pos size)) k
    → Limited size default h
    → Limited size default k
changed size default h k same a v = record {
  size_kept = same.pending_size ∙ v.size_kept;
  default_kept = same.default_max ∙ v.default_kept;
  sound = a;
}

Limited-IsCallFree : (size default : ℕ) → IsCallFree (Limited size default)
Limited-IsCallFree size default = record {
  calls = λ h k eh es eg eo ec ep ed v. record {
    size_kept = ep ∙ v.size_kept;
    default_kept = ed ∙ v.default_kept;
    sound = rw eh v.sound;
  };
  release =
      λ h c v. changed size default h _ (release-SameCalls h c) (release-Sound _ _ h c v.sound) v;
}

register-Limited :
    (size default : ℕ) (h : Hub) (c g : String) (user : ℤ) (platform : String) (n : ℤ) (now : ℕ)
    → Limited size default h
    → Limited size default (register h c g user platform n now).0
register-Limited size default h c g user platform n now v =
    changed size default h _ (register-SameCalls h c g user platform n now)
      (subst
        (λ t. Sound (max 1024 default) (queue_limit (pos t)) (register h c g user platform n now).0)
        v.size_kept
        (subst
          (λ t.
            Sound (max 1024 t) (queue_limit (pos h.pending_size))
              (register h c g user platform n now).0)
          v.default_kept
          (register-AllSound h c g user platform n now (rw (v.size_kept, v.default_kept) v.sound))))
      v

apply_op-Limited :
    (size default : ℕ) (h : Hub) (op : HubOp)
    → Limited size default h
    → Limited size default (apply_op h op)
unfolding apply_op make_channel store_waiter drop_waiter cleanup_completed_locked
apply_op-Limited size default h (registers c g user platform n now) v =
    register-Limited size default h c g user platform n now v
apply_op-Limited size default h (touches c now) v =
    changed size default h _ (touch-SameCalls h c now) (touch-Sound _ _ h c now v.sound) v
apply_op-Limited size default h (unregisters c) v =
    changed size default h _ (unregister-SameCalls h c) (unregister-Sound _ _ h c v.sound) v
apply_op-Limited size default h (picks g c) v =
    pick_keeps (Limited size default) h
      (λ m. record { size_kept = v.size_kept; default_kept = v.default_kept; sound = v.sound }) v g
      c
apply_op-Limited size default h makes v = record {
  size_kept = v.size_kept;
  default_kept = v.default_kept;
  sound = v.sound;
}
apply_op-Limited size default h (stores id c ch now) v = record {
  size_kept = v.size_kept;
  default_kept = v.default_kept;
  sound = v.sound;
}
apply_op-Limited size default h (drops id) v = record {
  size_kept = v.size_kept;
  default_kept = v.default_kept;
  sound = v.sound;
}
apply_op-Limited size default h (expires id now) v =
    expire-keeps (Limited-IsCallFree size default) h id now v
apply_op-Limited size default h (pushes p now job) v =
    changed size default h _ (push_pending-SameCalls h p now job)
      (push_pending-Sound _ _ h p now job v.sound) v
apply_op-Limited size default h (pops p now) v =
    changed size default h _ (pop_pending-SameCalls h p now) (pop_pending-Sound _ _ h p now v.sound)
      v
apply_op-Limited size default h (acquires c) v =
    changed size default h _ (acquire-SameCalls h c) (acquire-Sound _ _ h c v.sound) v
apply_op-Limited size default h (releases c) v = (Limited-IsCallFree size default).release h c v
apply_op-Limited size default h (submits c result now) v =
    submit-keeps (Limited-IsCallFree size default) h c result now v
apply_op-Limited size default h (receives ch) v =
    receive-keeps (Limited-IsCallFree size default) h ch v

run_ops-Limited :
    (size default : ℕ) (h : Hub) (ops : List HubOp)
    → Limited size default h
    → Limited size default (run_ops h ops)
unfolding run_ops
run_ops-Limited size default h [] v = v
run_ops-Limited size default h (op ∷ ops) v =
    run_ops-Limited size default (apply_op h op) ops (apply_op-Limited size default h op v)

-- After any interleaving of the operations on a new hub, every session that was ever registered has a
-- queue whose count is the number of its jobs and at most the limit that the hub was made with, and
-- as many calls in flight as 1024 or the hub's default at most.
pub hub_sessions_bounded :
    (pending_size max_in_flight : ℤ) (ops : List HubOp)
    → let h = new_hub pending_size max_in_flight in
      Sound (flight_cap h) (queue_limit (pos h.pending_size)) (run_ops h ops)
unfolding new_hub
hub_sessions_bounded a b ops =
    (run_ops-Limited _ _ (new_hub a b) ops
      (record { size_kept = refl; default_kept = refl; sound = tt })).sound
