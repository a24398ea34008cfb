-- ===== src/Web/Monitor/Queue.antt =====
-- internal/web/http.go, `handleRPCClientQueue`: when the handler panics.
use r0rpc.Prelude.{
  String, Bool, true, false, not, ◌&&◌, ◌||◌, Option, none, some, List, [], ◌∷◌, ◌≡◌, refl, ◌∙◌,
  ◌==◌, string_eq, if◌then◌else◌, ◌⊎◌, inl, inr, arith, Bool-cases, Option-cases,
}
use r0rpc.Prelude.Map.{Map, lookup}
use r0rpc.Prelude.Text.{trim_space, trim_left, trim_right}
use r0rpc.Rpc.State.{ClientSession}
use r0rpc.App.Groups.{GroupRow, ensure_group_active}
use r0rpc.Web.Monitor.{
  Device, QueueEntry, QueueReply, device_state, apply_realtime_device_states, is_listed,
  entry_before, client_queue, reply_queue, reply_devices, handle_rpc_client_queue,
}

abbrev pub is_none {ℓ} : {A : Type ℓ} → Option A → Bool
is_none none = true
is_none (some a) = false

abbrev pub is_panic : QueueReply → Bool
is_panic QueueReply.panicked = true
is_panic _ = false

module _ (to_lower : String → String) (online : to_lower "online" ≡ "online")
    (offline : to_lower "offline" ≡ "offline") (first second : Map String ClientSession) where
  -- Whether a device is asked for, given whether it had a recent session when the states were read: without
  -- a status those that are online, and otherwise those whose state is the status.
  abbrev pub is_asked : String → Bool → Bool
  is_asked status is_online =
      if status == ""
      then is_online
      else (if is_online then "online" else "offline") == to_lower status

  -- Whether one of the devices is asked for and has no recent session when the queues are read.
  abbrev pub any_missing : String → List Device → Bool
  any_missing status [] = false
  any_missing status (d ∷ items) =
      (is_asked status (not (is_none (lookup d.client_id first)))
        && is_none (lookup d.client_id second))
      || any_missing status items

  listed :
      (status : String) (d : Device) (o : Option ClientSession)
      → is_listed to_lower status (device_state d o) ≡ is_asked status (not (is_none o))
  unfolding trim_space trim_left trim_right
  listed status d none = rw offline refl
  listed status d (some s) = rw online refl

  same_client : (d : Device) (o : Option ClientSession) → (device_state d o).client_id ≡ d.client_id
  same_client d none = refl
  same_client d (some s) = refl

  panics_at :
      (b : Bool) (d : Device) (o : Option ClientSession) (rest : Option (List QueueEntry))
      (later : Bool)
      → is_none rest ≡ later
      → is_none (if b then entry_before d o rest else rest) ≡ (b && is_none o) || later
  panics_at b d none none later e = ground arith
  panics_at b d none (some rest) later e = ground arith
  panics_at b d (some s) none later e = ground arith
  panics_at b d (some s) (some rest) later e = ground arith

  client_queue-panics :
      (status : String) (items : List Device)
      → is_none (client_queue to_lower second status (apply_realtime_device_states first items))
        ≡ any_missing status items
  unfolding client_queue apply_realtime_device_states
  client_queue-panics status [] = refl
  client_queue-panics status (d ∷ items) =
      let o = lookup d.client_id first in
      let rest = client_queue to_lower second status (apply_realtime_device_states first items) in
      rw (same_client d o, listed status d o)
        (panics_at (is_asked status (not (is_none o))) (device_state d o)
          (lookup d.client_id second) rest (any_missing status items)
          (client_queue-panics status items))

  reply_queue-panics :
      (group : String) (o : Option (List QueueEntry)) → is_panic (reply_queue group o) ≡ is_none o
  reply_queue-panics group none = refl
  reply_queue-panics group (some entries) = refl

  -- Whether the handler gets as far as the devices: the group is named and active, and the store has them.
  abbrev pub missing_in : String → String ⊎ List Device → Bool
  missing_in status (inl e) = false
  missing_in status (inr items) = any_missing (trim_space status) items

  devices-panics :
      (group status : String) (items : String ⊎ List Device)
      → is_panic (reply_devices to_lower first second group status items) ≡ missing_in status items
  unfolding reply_devices
  devices-panics group status (inl e) = refl
  devices-panics group status (inr items) =
      reply_queue-panics group _ ∙ client_queue-panics (trim_space status) items

  -- If `strings.ToLower` leaves "online" and "offline" alone, the handler panics exactly if the group is
  -- named and active, the store has its devices, and one of them is asked for by its state at the first
  -- reading of the recent sessions and has none at the second: without a status or with "online", a
  -- device whose session has gone in between; with "offline", one that has none at
  -- either.
  pub handle_rpc_client_queue-panics :
      (groups : String → GroupRow) (group status : String) (items : String ⊎ List Device)
      → is_panic (handle_rpc_client_queue to_lower groups first second group status items)
        ≡ not (trim_space group == "")
          && is_none (ensure_group_active groups (trim_space group))
          && missing_in status items
  unfolding handle_rpc_client_queue
  handle_rpc_client_queue-panics groups group status items =
      let d = devices-panics (trim_space group) status items in
      elim (Bool-cases (trim_space group == "")) [
        | inl e ↦ rw e refl
        | inr e ↦ elim (Option-cases (ensure_group_active groups (trim_space group))) [
          | inl active ↦ rw (e, active) d
          | inr (f, refused) ↦ rw (e, refused) refl
        ]
      ]
