-- ===== src/Rpc/Hub.antt =====
-- internal/rpc/hub.go: the registration of clients in `Hub`. Each function is one critical section of
-- the mutex `mu`; the time read in it is an argument.
pub mod Groups
pub mod Lists
pub mod Registry
pub mod Entering
pub mod Registration
pub mod Frame
pub mod Bounds
pub mod Sessions
use r0rpc.Prelude.{
  ℕ, zero, suc, ◌+◌, ℤ, pos, negsuc, String, Bool, true, false, not, Option, none, some, get_or,
  List, [], ◌∷◌, ◌++◌, ◌==◌, string_eq, ltb, leb, length, get_elem?, set, select, member,
  if◌then◌else◌,
}
use r0rpc.Prelude.Map
use r0rpc.Prelude.Map.{Map, lookup, insert, delete}
use r0rpc.Rpc.Queue.{JobQueue, new_job_queue}
use r0rpc.Rpc.State.{
  Hub, ClientSession, order, cursor, group_sessions, session, normalize_max_in_flight,
}

unfoldable pub signal_dispatch_locked : Hub → ℕ → Hub
signal_dispatch_locked h p = elim (get_elem? h.heap p) [
  | none ↦ h
  | some s ↦ record h { heap = set h.heap p (record s { dispatch_ready = s.dispatch_ready + 1 }) }
]

-- `h.ensureGroup(group)[clientID] = session`
unfoldable pub ensure_group : Hub → String → String → ℕ → Hub
ensure_group h group client_id p = record h {
  groups = insert group (insert client_id p (group_sessions h group)) h.groups;
}

unfoldable pub ensure_order : Hub → String → String → Hub
ensure_order h group client_id =
    if member client_id (order h group)
    then h
    else record h { group_order = insert group (order h group ++ client_id ∷ []) h.group_order }

remove_from_groups : String → String → Map String (Map String ℕ) → Map String (Map String ℕ)
remove_from_groups group client_id groups = elim (lookup group groups) [
  | none ↦ groups
  | some sessions ↦
      let rest = delete client_id sessions in
      if Map.is_empty rest then delete group groups else insert group rest groups
]

-- The part of `removeClientFromGroup` behind the filter, by what the filter left.
remove_from_order : Hub → String → List String → Hub
remove_from_order h group [] = record h {
  group_order = delete group h.group_order;
  group_cursor = delete group h.group_cursor;
}
remove_from_order h group (x ∷ xs) = record h {
  group_order = insert group (x ∷ xs) h.group_order;
  group_cursor =
      if leb (length (x ∷ xs)) (cursor h group)
      then insert group 0 h.group_cursor
      else h.group_cursor;
}

pub remove_client_from_group : Hub → String → String → Hub
remove_client_from_group h group client_id =
    let filtered = select (λ c. not (c == client_id)) (order h group) in
    remove_from_order (record h { groups = remove_from_groups group client_id h.groups }) group
      filtered

-- `if existing.Group != group { h.removeClientFromGroup(existing.Group, clientID) }`
pub leave_old_group : Hub → String → String → String → Hub
leave_old_group h old group client_id =
    if old == group then h else remove_client_from_group h old client_id

-- The branch of `Register` for a client that has a session.
pub re_register : Hub → ℕ → ClientSession → String → String → ℤ → String → ℕ → ℕ → Hub
re_register h p existing client_id group user_id platform max_in_flight now =
    let moved = leave_old_group h existing.group group client_id in
    let updated = record existing {
      group = group;
      user_id = user_id;
      platform = platform;
      last_seen_at = now;
      max_in_flight = max_in_flight;
    } in
    let stored = record moved { heap = set moved.heap p updated } in
    let grouped = ensure_group stored group client_id p in
    signal_dispatch_locked (ensure_order grouped group client_id) p

-- The branch of `Register` for a client without one.
unfoldable pub new_session : Hub → String → String → ℤ → String → ℕ → ℕ → Hub
new_session h client_id group user_id platform max_in_flight now =
    let p = length h.heap in
    let fresh : ClientSession = record {
      client_id = client_id;
      group = group;
      user_id = user_id;
      platform = platform;
      last_seen_at = now;
      pending = new_job_queue (pos h.pending_size);
      max_in_flight = max_in_flight;
      in_flight = 0;
      dispatch_ready = 0;
    } in
    let stored = record h {
      heap = h.heap ++ fresh ∷ [];
      sessions = insert client_id p h.sessions;
    } in
    ensure_order (ensure_group stored group client_id p) group client_id

unfoldable pub register : Hub → String → String → ℤ → String → ℤ → ℕ → Hub × ℕ
register h client_id group user_id platform max_in_flight now =
    let max = normalize_max_in_flight h max_in_flight in
    elim (session h client_id) [
      | none ↦ (new_session h client_id group user_id platform max now, length h.heap)
      | some (p, existing) ↦ (re_register h p existing client_id group user_id platform max now, p)
    ]

pub touch : Hub → String → ℕ → Hub
touch h client_id now = elim (session h client_id) [
  | none ↦ h
  | some (p, s) ↦ record h { heap = set h.heap p (record s { last_seen_at = now }) }
]

pub unregister : Hub → String → Hub
unregister h client_id = elim (session h client_id) [
  | none ↦ h
  | some (p, s) ↦
      let deleted = record h { sessions = delete client_id h.sessions } in
      signal_dispatch_locked (remove_client_from_group deleted s.group client_id) p
]

present : List ClientSession → List ℕ → List ClientSession
present heap [] = []
present heap (p ∷ ps) = elim (get_elem? heap p) [
  | none ↦ present heap ps
  | some s ↦ s ∷ present heap ps
]

-- Copies of the sessions that the map holds, in some order.
pub online_clients : Hub → List ClientSession
online_clients h = present h.heap (Map.values h.sessions)
