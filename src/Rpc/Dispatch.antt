-- ===== src/Rpc/Dispatch.antt =====
-- internal/rpc/hub.go: the choice of a session for a call, and the slots for calls in flight.
-- Each function is one critical section.
pub mod Rotation
pub mod Choice
pub mod Fairness
pub mod Slots
pub mod Frame
use r0rpc.Prelude.{
  ℕ, zero, suc, ◌+◌, ◌-◌, ◌%◌, String, Bool, true, false, Option, none, some, List, [], ◌∷◌, ◌||◌,
  ◌==◌, string_eq, ltb, leb, length, get_elem?, set, if◌then◌else◌,
}
use r0rpc.Prelude.Map.{insert}
use r0rpc.Rpc.Job.{
  Job, HubError, Result, ok, err, no_online_client, preferred_client_down, group_saturated,
  client_session_gone,
}
use r0rpc.Rpc.Queue.{push, pop_or_wait_locked}
use r0rpc.Rpc.State.{Hub, ClientSession, order, cursor, session}
use r0rpc.Rpc.Hub.{signal_dispatch_locked}

-- What the loop of `pickSession` finds at a place of the group's order.
pub data Candidate : Type 0 where
  offline saturated : Candidate
  ready : ℕ → Candidate

-- `session.Pending.Len() >= session.Pending.Cap()`
abbrev pub queue_saturated : ClientSession → Bool
queue_saturated s = leb s.pending.limit s.pending.count

abbrev of_session : String → Option (ℕ × ClientSession) → Candidate
of_session group none = Candidate.offline
of_session group (some (p, s)) =
    if s.group == group
    then (if queue_saturated s then Candidate.saturated else Candidate.ready p)
    else Candidate.offline

unfoldable pub candidate : Hub → String → String → Candidate
candidate h group client_id = of_session group (session h client_id)

-- The client at an index of the order is in range, since the index is a remainder.
pub candidate_at : Hub → String → Option String → Candidate
candidate_at h group none = Candidate.offline
candidate_at h group (some client_id) = candidate h group client_id

abbrev saw : Candidate → Bool → Bool
saw Candidate.offline seen = seen
saw _ seen = true

abbrev take_ready : Candidate → Hub → String → ℕ → Hub × Result ℕ → Hub × Result ℕ
take_ready (Candidate.ready p) h group next rest =
    (record h { group_cursor = insert group next h.group_cursor }, ok p)
take_ready _ h group next rest = rest

-- The rounds that are left of the loop over the offsets.
pub pick_loop : Hub → String → List String → ℕ → ℕ → ℕ → Bool → Hub × Result ℕ
unfolding candidate_at
pick_loop h group clients start zero offset seen =
    (h, err (if seen then group_saturated else no_online_client))
pick_loop h group clients start (suc rounds) offset seen =
    let idx = (start + offset) % length clients in
    let found = candidate_at h group (get_elem? clients idx) in
    let rest = pick_loop h group clients start rounds (offset + 1) (saw found seen) in
    take_ready found h group ((idx + 1) % length clients) rest

-- The part of `pickSession` behind `order := h.groupOrder[group]`.
pick_from : Hub → String → List String → Hub × Result ℕ
pick_from h group [] = (h, err no_online_client)
pick_from h group (c ∷ cs) =
    let clients = c ∷ cs in
    let start = if leb (length clients) (cursor h group) then 0 else cursor h group in
    pick_loop h group clients start (length clients) 0 false

pub pick_session : Hub → String → String → Hub × Result ℕ
pick_session h group preferred_client =
    if preferred_client == ""
    then pick_from h group (order h group)
    else elim (session h preferred_client) [
      | none ↦ (h, err preferred_client_down)
      | some (p, s) ↦ (h, ok p)
    ]

-- A turn of the loop of `AcquireDispatchSlot`.
pub data Turn : Type 0 where
  gone : Turn
  acquired : ℕ → Turn
  -- the channel `dispatchReady` to wait on
  wait : ℕ → Turn

unfoldable pub acquire_turn : Hub → String → Hub × Turn
acquire_turn h client_id = elim (session h client_id) [
  | none ↦ (h, Turn.gone)
  | some (p, s) ↦
      if ltb s.in_flight s.max_in_flight
      then (
        record h { heap = set h.heap p (record s { in_flight = s.in_flight + 1 }) },
        Turn.acquired p,
      )
      else (h, Turn.wait s.dispatch_ready)
]

-- `-` stops at 0 as the test of the source does.
unfoldable pub release_dispatch_locked : Hub → String → Hub
release_dispatch_locked h client_id = elim (session h client_id) [
  | none ↦ h
  | some (p, s) ↦
      signal_dispatch_locked
        (record h { heap = set h.heap p (record s { in_flight = s.in_flight - 1 }) }) p
]

-- `session.Pending.Push(job)`, through a pointer to the session.
unfoldable pub push_pending : Hub → ℕ → ℕ → Option Job → Hub × Option HubError
push_pending h p now job = elim (get_elem? h.heap p) [
  | none ↦ (h, none)
  | some s ↦
      let (q, error) = push s.pending now job in
      (record h { heap = set h.heap p (record s { pending = q }) }, error)
]

-- One look of `session.Pending.Pop` or `session.Pending.Poll` into the queue.
unfoldable pub pop_pending : Hub → ℕ → ℕ → Hub × Option Job
pop_pending h p now = elim (get_elem? h.heap p) [
  | none ↦ (h, none)
  | some s ↦
      let (q, job) = pop_or_wait_locked s.pending now in
      (record h { heap = set h.heap p (record s { pending = q }) }, job)
]

-- The lookup and the push of `Requeue`, with what the other goroutines do to the hub between them.
unfoldable pub requeue : (Hub → Hub) → Hub → String → ℕ → Option Job → Hub × Option HubError
requeue meanwhile h client_id now none = (h, none)
requeue meanwhile h client_id now (some job) = elim (session h client_id) [
  | none ↦ (h, some client_session_gone)
  | some (p, s) ↦ push_pending (meanwhile h) p now (some job)
]
