-- ===== src/Web/Monitor.antt =====
-- internal/web/http.go: the states of devices and groups as the hub sees them, the queue of a group's
-- clients, and the pages of the calls. `strings.ToLower` and the rows of the store are arguments.
pub mod Queue
use r0rpc.Prelude.{
  ◌⊎◌, inl, inr, ℕ, ◌+◌, ◌-◌, ◌*◌, ◌/◌, String, ℤ, pos, negsuc, not_positive, lt_int, times, Bool,
  true, false, not, ◌&&◌, ◌||◌, Option, none, some, List, [], ◌∷◌, map, ◌==◌, string_eq, ltb, leb,
  if◌then◌else◌, get_or,
}
use r0rpc.Prelude.Map
use r0rpc.Prelude.Map.{Map, lookup, insert}
use r0rpc.Prelude.Text.{trim_space}
use r0rpc.Config.{Config}
use r0rpc.Rpc.State.{Hub, ClientSession}
use r0rpc.Rpc.Hub.{online_clients}
use r0rpc.App.Presence.{device_offline_grace}
use r0rpc.App.Groups.{GroupRow, GroupFailure, ensure_group_active}
use r0rpc.Web.Devices.{status_or}

-- The fields of `model.Device` that the handlers use; a time is its nanoseconds.
pub record Device : Type 0 where
  pub client_id : String
  pub group : String
  pub platform : String
  pub status : String
  pub last_seen_at : ℕ
  pub last_ip : String

pub record GroupInfo : Type 0 where
  pub group : String
  pub enabled : Bool
  pub online_devices : ℕ
  pub last_seen_at : Option ℕ
  pub status : String
  pub status_label : String

-- `now.Add(-grace)`, before the zero time if it is negative.
abbrev pub is_before_cutoff : ℤ → ℕ → ClientSession → Bool
is_before_cutoff (pos grace) now s = ltb (s.last_seen_at + grace) now
is_before_cutoff (negsuc n) now s = ltb s.last_seen_at (now + n + 1)

-- The loop over the copies of the sessions, from the last one on.
unfoldable pub recent_sessions :
    ℤ → ℕ → Map String ClientSession → List ClientSession → Map String ClientSession
recent_sessions grace now m [] = m
recent_sessions grace now m (s ∷ sessions) =
    let kept = if is_before_cutoff grace now s then m else insert s.client_id s m in
    recent_sessions grace now kept sessions

unfoldable pub realtime_sessions : Config → Hub → ℕ → Map String ClientSession
unfolding recent_sessions
realtime_sessions cfg h now =
    recent_sessions (device_offline_grace cfg) now Map.empty (online_clients h)

abbrev pub device_state : Device → Option ClientSession → Device
device_state d none = record d { status = "offline" }
device_state d (some s) = record d {
  status = "online";
  last_seen_at = if ltb d.last_seen_at s.last_seen_at then s.last_seen_at else d.last_seen_at;
  group = if d.group == "" then s.group else d.group;
  platform = if d.platform == "" then s.platform else d.platform;
}

unfoldable pub apply_realtime_device_states : Map String ClientSession → List Device → List Device
apply_realtime_device_states sessions [] = []
apply_realtime_device_states sessions (d ∷ items) =
    device_state d (lookup d.client_id sessions) ∷ apply_realtime_device_states sessions items

-- How many sessions a group has, and when one of them was seen last.
unfoldable pub count_group : String → List ClientSession → ℕ
count_group group [] = 0
count_group group (s ∷ sessions) =
    let rest = count_group group sessions in if s.group == group then rest + 1 else rest

unfoldable pub group_last_seen : String → List ClientSession → ℕ
group_last_seen group [] = 0
group_last_seen group (s ∷ sessions) =
    let rest = group_last_seen group sessions in
    if (s.group == group) && ltb rest s.last_seen_at then s.last_seen_at else rest

abbrev pub group_state : List ClientSession → GroupInfo → GroupInfo
group_state sessions g =
    let count = count_group g.group sessions in
    let seen = group_last_seen g.group sessions in
    if ltb 0 count
    then record g {
      online_devices = count;
      status = "online";
      status_label = "Online";
      last_seen_at = if ltb 0 seen then some seen else g.last_seen_at;
    }
    else g

unfoldable pub apply_realtime_group_states :
    Map String ClientSession → List GroupInfo → List GroupInfo
unfolding count_group group_last_seen
apply_realtime_group_states sessions items = map (group_state (Map.values sessions)) items

-- `handleDevices` behind the store: the devices of a status, or all.
unfoldable pub with_status : (String → String) → String → List Device → List Device
with_status to_lower filter [] = []
with_status to_lower filter (d ∷ items) =
    let rest = with_status to_lower filter items in
    if to_lower (trim_space d.status) == filter then d ∷ rest else rest

unfoldable pub list_devices :
    (String → String) → Map String ClientSession → String → List Device → List Device
unfolding with_status apply_realtime_device_states
list_devices to_lower sessions status items =
    let filter = to_lower (trim_space status) in
    let applied = apply_realtime_device_states sessions items in
    if filter == "" then applied else with_status to_lower filter applied

pub record QueueEntry : Type 0 where
  pub device : Device
  pub pending_count : ℕ
  pub in_flight : ℕ
  pub max_in_flight : ℕ

-- Whether the loop of `handleRPCClientQueue` skips a device.
abbrev pub is_listed : (String → String) → String → Device → Bool
is_listed to_lower status d =
    let current = to_lower (trim_space d.status) in
    if status == "" then current == "online" else current == to_lower status

-- The entry of a device before those of the rest. Without a session the pointer to its queue is nil.
abbrev pub entry_before :
    Device → Option ClientSession → Option (List QueueEntry) → Option (List QueueEntry)
entry_before d none rest = none
entry_before d (some s) none = none
entry_before d (some s) (some rest) = some (
    record {
      device = d;
      pending_count = s.pending.count;
      in_flight = s.in_flight;
      max_in_flight = s.max_in_flight;
    }
    ∷ rest)

-- The loop: `none` is a panic. `status` is trimmed.
unfoldable pub client_queue :
    (String → String) → Map String ClientSession → String → List Device → Option (List QueueEntry)
client_queue to_lower sessions status [] = some []
client_queue to_lower sessions status (d ∷ items) =
    let rest = client_queue to_lower sessions status items in
    if is_listed to_lower status d then entry_before d (lookup d.client_id sessions) rest else rest

-- The answer to a request for the queue of a group, or that its handler panics.
pub data QueueReply : Type 0 where
  group_missing panicked : QueueReply
  refused : ℤ → GroupFailure → QueueReply
  store_failed : String → QueueReply
  listed : String → List QueueEntry → QueueReply

abbrev pub reply_queue : String → Option (List QueueEntry) → QueueReply
reply_queue group none = QueueReply.panicked
reply_queue group (some entries) = QueueReply.listed group entries

-- The part behind the check of the group, by what the store has. `first` and `second` are the sessions at the
-- two calls of `realtimeSessions`, for the states of the devices and for their queues.
unfoldable pub reply_devices :
    (String → String)
    → Map String ClientSession
    → Map String ClientSession
    → String
    → String
    → String ⊎ List Device
    → QueueReply
unfolding client_queue apply_realtime_device_states
reply_devices to_lower first second group status (inl e) = QueueReply.store_failed e
reply_devices to_lower first second group status (inr items) =
    reply_queue group
      (client_queue to_lower second (trim_space status) (apply_realtime_device_states first items))

-- `handleRPCClientQueue`
unfoldable pub handle_rpc_client_queue :
    (String → String)
    → (String → GroupRow)
    → Map String ClientSession
    → Map String ClientSession
    → String
    → String
    → String ⊎ List Device
    → QueueReply
unfolding reply_devices
handle_rpc_client_queue to_lower groups first second group status items =
    let name = trim_space group in
    if name == "" then QueueReply.group_missing else elim (ensure_group_active groups name) [
      | some e ↦ QueueReply.refused (status_or (pos 500) e) e
      | none ↦ reply_devices to_lower first second name status items
    ]

-- The page and the size of a page that `handleMonitorRequests` and `ListRPCRequests` use.
unfoldable pub page_of : ℤ → ℤ
page_of n = if not_positive n then pos 1 else n

unfoldable pub page_size_of : ℤ → ℤ
page_size_of n = if not_positive n || lt_int (pos 100) n then pos 20 else n

unfoldable pub total_pages : ℕ → ℕ → ℕ
total_pages total page_size = if ltb 0 total then (total + page_size - 1) / page_size else 0
